-- ===== src/Tests/Network.antt =====
-- The agent's client and the server's router, together.
use go_musthave_metrics.Base.{
  ℕ, ◌≡◌, ◌≤◌, refl, ap, sym, false, inr, Option, none, some, List, [], ◌∷◌, arith, ◌==◌,
  if◌then◌else◌,
}
use go_musthave_metrics.Base.Text.{Text, codes, str_eq}
use go_musthave_metrics.Base.Ints.{pos}
use go_musthave_metrics.Base.Maps.{GoMap, lookup}
use go_musthave_metrics.Base.Results.{Error, Result, ok, err}
use go_musthave_metrics.Config.{AgentFlags, get_retry_delays_as_duration}
use go_musthave_metrics.Retry.{Duration}
use go_musthave_metrics.Model.{Metrics}
use go_musthave_metrics.Storage.Mem.{MemStorage, get_gauge, get_counter}
use go_musthave_metrics.Storage.Mem.Batch.{counted}
use go_musthave_metrics.Service.{ServiceState}
use go_musthave_metrics.Handler.Metrics.{Formats}
use go_musthave_metrics.Handler.Compress.{Gzip, read_all, raw, compress, decompress_request}
use go_musthave_metrics.Handler.Gzip.{is_gzip_encoding}
use go_musthave_metrics.Handler.Hash.{sign}
use go_musthave_metrics.Handler.Limits.{Limiter, admit}
use go_musthave_metrics.Agent.Sender.{batch}
use go_musthave_metrics.Agent.Sender.Delivery.{poll_count}
use go_musthave_metrics.Server.{Outside, RouterFlags, HttpRequest, update_metrics, serve}
use go_musthave_metrics.Server.Network.{Link}
use go_musthave_metrics.Server.Reports.{Fits}
use go_musthave_metrics.Server.Delivered.{memory, send_report, report_delivered}
use go_musthave_metrics.Server.Forged.{forged_request_refused}

-- A compression that puts one byte in front.
abbrev packs : Text → Result Text
packs t = ok (1 ∷ t)

abbrev unpack : Text → Result Text
unpack [] = err (codes "empty")
unpack (c ∷ t) = ok t

abbrev packing : Gzip
packing = record { opens = λ t. none; gunzip = unpack; gzip_text = λ t. 1 ∷ t }

abbrev or_empty : Result Text → Text
or_empty (ok t) = t
or_empty (err e) = []

abbrev unpacked_text : Result Text → Result Text
unpacked_text (ok z) = unpack z
unpacked_text (err e) = err e

abbrev gauges : GoMap ℕ
gauges = (codes "Alloc", 7) ∷ []

-- Every body decodes to the same batch.
abbrev formats : Formats ℕ
formats = record {
  parse_float = λ t. err (codes "no floats");
  format_float = λ v. [];
  decode_metric = λ t. err (codes "no metric");
  decode_metrics = λ t. ok (batch gauges 5);
  encode_metric = λ m. ok m.id;
}

abbrev outside : Outside ℕ ℕ
outside = record {
  formats = formats;
  yields = λ b. or_empty (read_all packing b);
  execute = λ t. ok t;
  g = packing;
  sha256_hex = λ t. 2 ∷ t;
  find = λ rs method path. inr (update_metrics, λ name. []);
  clock = record { now = 0; unix_milli = λ t. t };
}

abbrev State : Type 0
State = ServiceState (MemStorage ℕ) ℕ

abbrev state : State
state = record { storage = record { counters = (poll_count, 3) ∷ []; gauges = [] }; published = [] }

abbrev link : Link State
link = record {
  path_of = λ url. codes "/updates/";
  remote_addr = codes "10.0.0.1:5555";
  refuses = λ method url. none;
  ctx_err = λ s. none;
  wait = λ s d. (none, s);
}

abbrev router_flags : RouterFlags
router_flags = record { rate_limit = pos 1; secret_key = codes "key" }

abbrev idle : Limiter
idle = record { semaphore = 0; serving = 0 }

abbrev agent_flags : AgentFlags
agent_flags = record {
  server_addr = codes "localhost:8080";
  report_interval = pos 10;
  polling_interval = pos 2;
  log_level = [];
  secret_key = codes "key";
  rate_limit = pos 0;
  max_retries = pos 3;
  retry_delays = codes "1s" ∷ [];
}

abbrev one_second : Text → Result Duration
one_second t = ok 1_000_000_000

abbrev encode : List (Metrics ℕ) → Text
encode ms = codes "[{\"id\":\"Alloc\",\"type\":\"gauge\",\"value\":7}]"

abbrev no_param : Text → Text
no_param name = []

abbrev storage_args : ℕ → Text
storage_args v = []

abbrev in_order {ℓ} : {A : Type ℓ} → A → A
in_order a = a

fits :
    Fits outside
      (memory outside storage_args in_order in_order)
      packs
      unpack
      link
      router_flags
      idle
      (codes "http://localhost:8080")
      no_param
unfolding admit read_all
fits = record {
  refuses = refl;
  found = refl;
  admits = λ e. absurd (cc);
  compresses = λ t. (1 ∷ t, refl);
  reads_back = record { opened = λ t z e. refl; inflated = λ t z e. ap unpacked_text (sym e) };
  reads_reply = refl;
  has_header = λ e. absurd (cc);
  yields_all = λ b t e. ap or_empty e;
}

abbrev reported : Option Error × State
reported =
    send_report outside storage_args in_order in_order packs unpack link router_flags idle
      (codes "http://localhost:8080") no_param one_second agent_flags encode gauges 5 state

report_delivered_example :
    (reported.0 ≡ none)
    × (get_gauge reported.1.storage poll_count ≡ elim (lookup poll_count gauges) [
      | some v ↦ some v
      | none ↦ get_gauge state.storage poll_count
    ])
    × (get_counter reported.1.storage poll_count
        ≡ counted
            (get_counter state.storage poll_count)
            (if 5 == 0 then [] else if str_eq poll_count poll_count then 5 ∷ [] else []))
unfolding get_retry_delays_as_duration lookup
report_delivered_example =
    report_delivered outside storage_args in_order in_order packs unpack link router_flags idle
      (codes "http://localhost:8080") no_param one_second agent_flags encode gauges 5
      (1_000_000_000 ∷ []) poll_count state fits refl refl (refl, tt) (omega arith)

abbrev forged : HttpRequest
forged = record {
  method = codes "POST";
  path = codes "/updates/";
  remote_addr = [];
  content_type = codes "application/json";
  content_encoding = [];
  accept_encoding = [];
  hash_sha256 = codes "guess";
  hash = [];
  content_length = pos 2;
  body = codes "[]";
}

forged_request_refused_example :
    ((serve outside
        (memory outside storage_args in_order in_order)
        router_flags
        false
        idle
        forged
        state).1
      ≡ state)
    × (400
        ≤ (serve outside
            (memory outside storage_args in_order in_order)
            router_flags
            false
            idle
            forged
            state).0.status)
unfolding compress decompress_request is_gzip_encoding read_all str_eq sign
forged_request_refused_example =
    forged_request_refused outside (memory outside storage_args in_order in_order) router_flags
      false idle forged (raw (codes "[]")) (codes "[]") state (λ e. absurd (cc)) (λ e. absurd (cc))
      (λ e. absurd (cc)) refl refl (λ e. absurd (cc))
