-- ===== src/Server/Delivered.antt =====
-- What a report of the agent leaves in the in-memory storage of the server.
use go_musthave_metrics.Base.{
  zero, suc, ◌≡◌, refl, inl, inr, ◌<◌, if◌then◌else◌, Option, none, some, List, [], ◌∷◌, ◌==◌,
}
use go_musthave_metrics.Base.Text.{Text, codes, str_eq}
use go_musthave_metrics.Base.Maps.{GoMap, lookup, IsUnique}
use go_musthave_metrics.Base.Words.{Int64, int64_mod}
use go_musthave_metrics.Base.Results.{Error, Result, ok}
use go_musthave_metrics.Config.{AgentFlags, get_retry_delays_as_duration}
use go_musthave_metrics.Retry.{Duration}
use go_musthave_metrics.Model.{Metrics}
use go_musthave_metrics.Service
use go_musthave_metrics.Service.{Clock}
use go_musthave_metrics.Storage.Interface.{Storage}
use go_musthave_metrics.Storage.Mem.{MemStorage, get_gauge, get_counter}
use go_musthave_metrics.Storage.Mem.Batch.{counted}
use go_musthave_metrics.Storage.Mem.Instance.{mem_storage}
use go_musthave_metrics.Handler.Limits.{Limiter}
use go_musthave_metrics.Agent.Client.{new_request_processor}
use go_musthave_metrics.Agent.Client.Requests.{post}
use go_musthave_metrics.Agent.Client.Requests.Retried.{do_request_with_retry-final}
use go_musthave_metrics.Agent.Sender.{batch, send}
use go_musthave_metrics.Agent.Sender.Delivery.{poll_count, send-cases, delivered_batch}
use go_musthave_metrics.Server.{RouterFlags, Outside, signer_service}
use go_musthave_metrics.Server.Network.{Link}
use go_musthave_metrics.Server.Reports.{State, Fits, network, report-stored}

module _ {F Time : Type 0} (x : Outside F Time) (format_float : F → Text)
    (vc : GoMap Int64 → GoMap Int64) (vg : GoMap F → GoMap F) where
  abbrev pub memory : Storage F (MemStorage F)
  memory = mem_storage format_float vc vg

  module _ (gzip gunzip : Text → Result Text) (link : Link (State x memory)) (cfg : RouterFlags)
      (l : Limiter) (base_url : Text) (param : Text → Text)
      (parse_duration : Text → Result Duration) (flags : AgentFlags)
      (encode : List (Metrics F) → Text) where
    -- The client's `Post` of a batch.
    abbrev posts : List (Metrics F) → State x memory → Result Text × State x memory
    posts ms =
        post (network x memory gzip gunzip link cfg l base_url param) x.sha256_hex gzip gunzip
          parse_duration flags (new_request_processor (signer_service cfg)) base_url
          (codes "/updates/") (ok (encode ms))

    -- `Send` of the agent, over its client and the network.
    abbrev pub send_report : GoMap F → Int64 → State x memory → Option Error × State x memory
    send_report = send posts

    posted :
        (ms : List (Metrics F)) (delays : List Duration) (s : State x memory)
        → Fits x memory gzip gunzip link cfg l base_url param
        → x.formats.decode_metrics (encode ms) ≡ ok ms
        → get_retry_delays_as_duration parse_duration flags.retry_delays ≡ ok delays
        → posts ms s ≡ (ok [], (Service.update_metrics memory x.clock ms link.remote_addr s).1)
    unfolding post Service.update_metrics
    posted ms delays s f dec de =
        do_request_with_retry-final (network x memory gzip gunzip link cfg l base_url param)
          x.sha256_hex gzip gunzip parse_duration flags (new_request_processor (signer_service cfg))
          base_url (codes "POST") (codes "/updates/") (some (ok (encode ms))) s _ (ok []) delays de
          (report-stored x memory gzip gunzip link cfg l base_url param ms (encode ms) s f dec refl)
          (λ e p. absurd (cc))

    -- What the server stores after a report.
    abbrev Stored : GoMap F → Int64 → Text → State x memory → State x memory → Type 0
    Stored es d name s s' =
        (get_gauge s'.storage name
          ≡ elim (lookup name es) [ some v ↦ some v | none ↦ get_gauge s.storage name ])
        × (get_counter s'.storage name
            ≡ counted (get_counter s.storage name)
                (if d == 0 then [] else if str_eq poll_count name then d ∷ [] else []))

    saved-Stored :
        (es : GoMap F) (d : Int64) (name : Text) (s : State x memory)
        → IsUnique es
        → d < int64_mod
        → Stored es d name s
            (Service.update_metrics memory x.clock (batch es d) link.remote_addr s).1
    unfolding Service.update_metrics
    saved-Stored es d name s u h = delivered_batch s.storage es d name u h

    unsent-Stored :
        (es : GoMap F) (d : Int64) (name : Text) (s : State x memory)
        → es ≡ []
        → d ≡ 0
        → Stored es d name s s
    unfolding lookup
    unsent-Stored [] zero name s e z = (refl, refl)
    unsent-Stored [] (suc d) name s e z = absurd (cc)
    unsent-Stored (x ∷ es) d name s e z = absurd (cc)

    -- A report of the agent to a server that is not shutting down, with a free slot or no limit in
    -- its limiter, with the same key or none, over a network that loses nothing and with the URL of
    -- the batch routed to its handler, is sent without an error, and leaves in the in-memory
    -- storage each measured gauge, the poll count added to PollCount, and everything else as it
    -- was. The names are distinct, the poll count is an int64, the retry delays parse, JSON and
    -- gzip read back what they wrote, gzip compresses every text and writes no empty stream, and a
    -- body that can be read is read whole.
    pub report_delivered :
        (es : GoMap F) (d : Int64) (delays : List Duration) (name : Text) (s : State x memory)
        → Fits x memory gzip gunzip link cfg l base_url param
        → x.formats.decode_metrics (encode (batch es d)) ≡ ok (batch es d)
        → get_retry_delays_as_duration parse_duration flags.retry_delays ≡ ok delays
        → IsUnique es
        → d < int64_mod
        → let (e, s') = send_report es d s in
          (e ≡ none)
          × (get_gauge s'.storage name
              ≡ elim (lookup name es) [ some v ↦ some v | none ↦ get_gauge s.storage name ])
          × (get_counter s'.storage name
              ≡ counted
                  (get_counter s.storage name)
                  (if d == 0 then [] else if str_eq poll_count name then d ∷ [] else []))
    unfolding send post
    report_delivered es d delays name s f dec de u h =
        elim (send-cases posts es d s _ [] (posted (batch es d) delays s f dec de)) [
          | inl sent ↦ let (a, b) = saved-Stored es d name s u h in rw sent (refl, a, b)
          | inr (no_names, zero_count, sent) ↦
              let (a, b) = unsent-Stored es d name s no_names zero_count in rw sent (refl, a, b)
        ]
