-- ===== src/Server.antt =====
-- `createRouter` of internal/server/server.go: the table of routes, and what one request goes
-- through. The match of a route is chi's and a parameter.
pub mod Batched
pub mod Network
pub mod Reports
pub mod Delivered
pub mod Forged
pub mod Database
pub mod Startup
pub mod Shutdown
pub mod Run
use go_musthave_metrics.Base.{
  ℕ, Bool, true, false, Option, none, some, inl, inr, ◌⊎◌, List, [], ◌∷◌, ◌++◌, map, if◌then◌else◌,
}
use go_musthave_metrics.Base.Text.{Text, codes, str_eq}
use go_musthave_metrics.Base.Ints.{ℤ}
use go_musthave_metrics.Storage.Interface.{Storage}
use go_musthave_metrics.Service.{ServiceState, Clock}
use go_musthave_metrics.Service.Wiring.{metrics_service}
use go_musthave_metrics.Base.Results.{Result}
use go_musthave_metrics.Handler.Http.{
  Request, Response, http_error, status_ok, status_too_many_requests, status_service_unavailable,
}
use go_musthave_metrics.Handler.Metrics
use go_musthave_metrics.Handler.Metrics.{Formats}
use go_musthave_metrics.Handler.Pages.{get_main_page, get_ping_db}
use go_musthave_metrics.Handler.Compress.{
  Gzip, Body, Inner, CompressWriter, compress, compress_response, close,
}
use go_musthave_metrics.Handler.Compress.Wire.{Op, sends_header, writes, run}
use go_musthave_metrics.Handler.Hash.{passes, rejects, hash_validation}
use go_musthave_metrics.Handler.Limits.{Limiter, Admission, bypassed, admitted, refused, admit}

pub data Endpoint : Type 0 where
  ping_db main_page update_metric update_post update_metrics get_metric sent_metric_post : Endpoint

pub record Route : Type 0 where
  pub method : Text
  pub pattern : Text
  pub endpoint : Endpoint

abbrev on_get : Text → Endpoint → List Route
on_get p e = record { method = codes "GET"; pattern = p; endpoint = e } ∷ []

abbrev on_post : Text → Endpoint → List Route
on_post p e = record { method = codes "POST"; pattern = p; endpoint = e } ∷ []

-- `r.Route(prefix, ...)`: the texts are joined as they are written, and chi reads `//` as `/`.
abbrev under : Text → List Route → List Route
under prefix rs = map (λ (r : Route). record r { pattern = prefix ++ r.pattern }) rs

abbrev metric_path : Text
metric_path = codes "/{metricType}/{metricName}"

pub routes : List Route
routes =
    under (codes "/pinghandler") (on_get (codes "/") ping_db)
    ++ (under (codes "/") (on_get (codes "/") main_page)
        ++ (under (codes "/update") (
              under metric_path (on_post (codes "/{value}") update_metric)
              ++ on_post (codes "/") update_post)
            ++ (under (codes "/updates") (on_post (codes "/") update_metrics)
                ++ under (codes "/value") (
                    under metric_path (on_get (codes "/") get_metric)
                    ++ on_post (codes "/") sent_metric_post))))

-- What the middlewares and the handlers read of a request.
pub record HttpRequest : Type 0 where
  pub method : Text
  pub path : Text
  pub remote_addr : Text
  pub content_type : Text
  pub content_encoding : Text
  pub accept_encoding : Text
  pub hash_sha256 : Text
  pub hash : Text
  pub content_length : ℤ
  pub body : Text

-- What goes back to the client.
pub record Reply : Type 0 where
  pub status : ℕ
  pub content_type : Text
  pub content_encoding : Text
  pub body : Text

-- Of the server's flags.
pub record RouterFlags : Type 0 where
  pub rate_limit : ℤ
  pub secret_key : Text

-- chi: a route of the table with its URL parameters, or chi's own answer.
abbrev Matching : Type 0
Matching = List Route → Text → Text → Response ⊎ (Endpoint × (Text → Text))

abbrev signer_service : RouterFlags → Option Text
signer_service cfg = if str_eq cfg.secret_key [] then none else some cfg.secret_key

pub plain_reply : Response → Reply
plain_reply resp = record {
  status = resp.status;
  content_type = resp.content_type;
  content_encoding = [];
  body = resp.body;
}

-- A handler's calls of its ResponseWriter.
abbrev ops_of : Response → List Op
ops_of resp = sends_header resp.status ∷ (elim resp.body [ [] ↦ [] | c ∷ t ↦ writes (c ∷ t) ∷ [] ])

abbrev untouched : Inner
untouched = record { status = none; content_encoding = []; body = [] }

abbrev sent_status : Inner → ℕ
sent_status w = elim w.status [ some n ↦ n | none ↦ status_ok ]

-- The response of a handler, behind the writer of `Compress`.
pub reply_through : Gzip → Text → Response → Reply
reply_through g accept_encoding resp = elim (compress_response untouched accept_encoding) [
  | none ↦ plain_reply resp
  | some c ↦
      let w = (close g.gzip_text (run c (ops_of resp))).w in
      record {
        status = sent_status w;
        content_type = resp.content_type;
        content_encoding = w.content_encoding;
        body = w.body;
      }
]

-- What the server uses of other packages: encoding/json and strconv, what a decoder gets of a body
-- before its end or an error, the main page's html/template, compress/gzip, crypto/sha256, chi, time.
pub record Outside (F Time : Type 0) : Type 0 where
  pub formats : Formats F
  pub yields : Body → Text
  pub execute : Text → Result Text
  pub g : Gzip
  pub sha256_hex : Text → Text
  pub find : Matching
  pub clock : Clock Time

module _ {F S Time : Type 0} (x : Outside F Time) (st : Storage F S) where
  request_of : HttpRequest → Body → Request
  request_of r b = record {
    content_type = r.content_type;
    has_body = true;
    content_length = r.content_length;
    body = x.yields b;
    remote_addr = r.remote_addr;
  }

  -- A handler that only reads the storage.
  on_storage : (S → Response × S) → ServiceState S Time → Response × ServiceState S Time
  on_storage h s = let (resp, st') = h s.storage in (resp, record s { storage = st' })

  handle : Request → (Text → Text) → Endpoint → ServiceState S Time → Response × ServiceState S Time
  unfolding on_storage
  handle r param ping_db s = on_storage (get_ping_db st) s
  handle r param main_page s = on_storage (get_main_page st x.execute) s
  handle r param update_metric s =
      Metrics.update_metric x.formats (metrics_service st x.clock) (param (codes "metricType"))
        (param (codes "metricName")) (param (codes "value")) s
  handle r param update_post s = Metrics.update_post x.formats (metrics_service st x.clock) r s
  handle r param update_metrics s = Metrics.update_batch x.formats (metrics_service st x.clock) r s
  handle r param get_metric s =
      Metrics.get_metric x.formats (metrics_service st x.clock) (param (codes "metricType"))
        (param (codes "metricName")) s
  handle r param sent_metric_post s =
      Metrics.sent_metric_post x.formats (metrics_service st x.clock) r s

  -- From the hash check on.
  checked : RouterFlags → HttpRequest → Body → ServiceState S Time → Response × ServiceState S Time
  unfolding handle request_of
  checked cfg r b s =
      elim (hash_validation x.sha256_hex x.g (signer_service cfg) r.hash_sha256 r.hash b) [
        | rejects resp ↦ (resp, s)
        | passes b' ↦ elim (x.find routes r.method r.path) [
          | inl resp ↦ (resp, s)
          | inr (e, param) ↦ handle (request_of r b') param e s
        ]
      ]

  -- From the compressor on.
  unpacked : RouterFlags → HttpRequest → ServiceState S Time → Reply × ServiceState S Time
  unfolding checked reply_through
  unpacked cfg r s = elim (compress x.g r.content_encoding r.body) [
    | inl resp ↦ (plain_reply resp, s)
    | inr b ↦ let (resp, s') = checked cfg r b s in (reply_through x.g r.accept_encoding resp, s')
  ]

  -- One request to the router, with `shutting_down` once `shutdownCh` is closed, and the limiter as
  -- the request finds it.
  pub serve :
      RouterFlags → Bool → Limiter → HttpRequest → ServiceState S Time → Reply × ServiceState S Time
  unfolding unpacked
  serve cfg true l r s =
      (plain_reply (http_error (codes "Server is shutting down") status_service_unavailable), s)
  serve cfg false l r s = elim (admit cfg.rate_limit l).0 [
    | refused ↦ (plain_reply (http_error (codes "Too Many Requests") status_too_many_requests), s)
    | _ ↦ unpacked cfg r s
  ]
