-- ===== src/Server/Reports.antt =====
-- A report of the agent, from its HTTP client through the router into the storage.
use go_musthave_metrics.Base.{
  ◌≡◌, ◌≢◌, ◌∙◌, refl, ap, true, false, Option, none, some, inl, inr, ◌⊎◌, List, [], ◌++◌, arith,
}
use go_musthave_metrics.Base.Text.{Text, codes, str_eq, lower, contains}
use go_musthave_metrics.Base.Results.{Error, Result, ok}
use go_musthave_metrics.Model.{Metrics}
use go_musthave_metrics.Storage.Interface.{Storage}
use go_musthave_metrics.Service
use go_musthave_metrics.Service.{ServiceState, Clock}
use go_musthave_metrics.Service.Wiring.{metrics_service}
use go_musthave_metrics.Handler.Http.{application_json, Response, header_only, status_ok}
use go_musthave_metrics.Handler.Gzip.{gzip_word, is_gzip_encoding}
use go_musthave_metrics.Handler.Compress.{
  Body, compress, read_all, compress_response, write_header, close,
}
use go_musthave_metrics.Handler.Compress.Wire.{run}
use go_musthave_metrics.Handler.Metrics.Writes.{update_batch-ok}
use go_musthave_metrics.Handler.Hash.{Verdict, passes, rejects, hash_validation}
use go_musthave_metrics.Handler.Limits.{Limiter, refused, admit}
use go_musthave_metrics.Agent.Client.{Outgoing, process_request, new_request_processor}
use go_musthave_metrics.Agent.Client.Accepted.{
  received, ReadsBack, process_request-type, process_request-total, agent_request_accepted,
}
use go_musthave_metrics.Agent.Client.Requests.{Network, do_request, prepare, accept}
use go_musthave_metrics.Agent.Client.Responses
use go_musthave_metrics.Agent.Client.Responses.{process_response, process_response-gzip}
use go_musthave_metrics.Server.{
  HttpRequest, Reply, RouterFlags, Outside, routes, signer_service, update_metrics, Endpoint,
  request_of, reply_through, handle, checked, unpacked, serve,
}
use go_musthave_metrics.Server.Network.{Link, connected, incoming, http_response}

module _ {F S Time : Type 0} (x : Outside F Time) (st : Storage F S) where
  abbrev pub State : Type 0
  State = ServiceState S Time

  abbrev served : RouterFlags → Limiter → HttpRequest → State → Reply × State
  served cfg l = serve x st cfg false l

  served-admitted :
      (cfg : RouterFlags) (l : Limiter) (r : HttpRequest) (s : State)
      → (admit cfg.rate_limit l).0 ≢ refused
      → served cfg l r s ≡ unpacked x st cfg r s
  unfolding serve
  served-admitted cfg l r s h = ground (arith, h)

  contains-json : contains application_json application_json ≡ true
  unfolding contains
  contains-json = refl

  empty_success : Reply
  empty_success = record {
    status = status_ok;
    content_type = [];
    content_encoding = gzip_word;
    body = x.g.gzip_text [];
  }

  reply_through-ok : reply_through x.g (codes "gzip") (header_only status_ok) ≡ empty_success
  unfolding reply_through empty_success compress_response is_gzip_encoding str_eq close run
      write_header lower
  reply_through-ok = refl

  empty_success-accept :
      (gunzip : Text → Result Text) (link : Link State)
      → gunzip (x.g.gzip_text []) ≡ ok []
      → x.g.gzip_text [] ≢ []
      → accept gunzip (http_response link empty_success) ≡ ok []
  unfolding accept empty_success process_response Responses.is_gzip_encoding
  empty_success-accept gunzip link e ne =
      rw (process_response-gzip gunzip 200 (x.g.gzip_text []) [] e ne) refl

  -- What the client's middlewares pass on is what the handler reads.
  abbrev Reads : Option Text → Outgoing → Text → Type 0
  Reads key o t =
      (b : Body) × (b' : Body) × (compress x.g o.content_encoding o.body ≡ inr b)
      × (hash_validation x.sha256_hex x.g key o.hash_sha256 [] b ≡ passes b')
      × (read_all x.g b' ≡ ok t)

  received-Reads :
      (key : Option Text) (o : Outgoing) (t : Text)
      → received x.sha256_hex x.g key o ≡ some (ok t)
      → Reads key o t
  received-Reads key o t e = go (compress x.g o.content_encoding o.body) refl e
    where
      after_hash :
          (b : Body) (v : Verdict)
          → compress x.g o.content_encoding o.body ≡ inr b
          → hash_validation x.sha256_hex x.g key o.hash_sha256 [] b ≡ v
          → elim v [ rejects r ↦ none | passes b' ↦ some (read_all x.g b') ] ≡ some (ok t)
          → Reads key o t
      after_hash b (passes b') ce he e = (b, b', ce, he, cc)
      after_hash b (rejects r) ce he e = absurd (cc)

      go :
          (c : Response ⊎ Body)
          → compress x.g o.content_encoding o.body ≡ c
          → elim c [
            | inl r ↦ none
            | inr b ↦ elim (hash_validation x.sha256_hex x.g key o.hash_sha256 [] b) [
              | rejects r ↦ none
              | passes b' ↦ some (read_all x.g b')
            ]
          ]
            ≡ some (ok t)
          → Reads key o t
      go (inl r) ce e = absurd (cc)
      go (inr b) ce e =
          after_hash b (hash_validation x.sha256_hex x.g key o.hash_sha256 [] b) ce refl e

  handle-report :
      (r : HttpRequest) (b : Body) (param : Text → Text) (ms : List (Metrics F)) (s : State)
      → contains r.content_type application_json ≡ true
      → x.formats.decode_metrics (x.yields b) ≡ ok ms
      → (Service.update_metrics st x.clock ms r.remote_addr s).0 ≡ none
      → handle x st (request_of x st r b) param update_metrics s
        ≡ (header_only status_ok, (Service.update_metrics st x.clock ms r.remote_addr s).1)
  unfolding handle request_of
  handle-report r b param ms s ct dec saved =
      update_batch-ok x.formats (metrics_service st x.clock) _ ms s ct dec saved

  unpacked-passes :
      (cfg : RouterFlags) (r : HttpRequest) (b : Body) (s : State)
      → compress x.g r.content_encoding r.body ≡ inr b
      → unpacked x st cfg r s ≡ (
          let (resp, s') = checked x st cfg r b s in (reply_through x.g r.accept_encoding resp, s'))
  unfolding unpacked
  unpacked-passes cfg r b s e = ground (arith, e)

  checked-passes :
      (cfg : RouterFlags) (r : HttpRequest) (b b' : Body) (e : Endpoint) (param : Text → Text)
      (s : State)
      → hash_validation x.sha256_hex x.g (signer_service cfg) r.hash_sha256 r.hash b ≡ passes b'
      → x.find routes r.method r.path ≡ inr (e, param)
      → checked x st cfg r b s ≡ handle x st (request_of x st r b') param e s
  unfolding checked
  checked-passes cfg r b b' e param s h f = ground (arith, h, f)

  module _ (gzip gunzip : Text → Result Text) (link : Link State) (cfg : RouterFlags) (l : Limiter)
      (base_url : Text) (param : Text → Text) where
    -- How the agent and the server fit together.
    pub record Fits : Type 0 where
      -- The client takes the URL, and chi finds the route of the batch.
      pub refuses : link.refuses (codes "POST") (base_url ++ codes "/updates/") ≡ none
      pub found :
          x.find routes (codes "POST") (link.path_of (base_url ++ codes "/updates/"))
          ≡ inr (update_metrics, param)
      -- A free slot in the limiter, or no limit.
      pub admits : (admit cfg.rate_limit l).0 ≢ refused
      -- compress/gzip reads back what it wrote, and writes no empty stream.
      pub compresses : (t : Text) → (z : Text) × (gzip t ≡ ok z)
      pub reads_back : ReadsBack x.g gzip
      pub reads_reply : gunzip (x.g.gzip_text []) ≡ ok []
      pub has_header : x.g.gzip_text [] ≢ []
      -- A body that can be read whole x.yields all of it.
      pub yields_all : (b : Body) (t : Text) → read_all x.g b ≡ ok t → x.yields b ≡ t

    abbrev pub network : Network State
    network = connected link (served cfg l)

    -- The agent's `doRequest` of a report.
    abbrev pub report : Text → State → Result Text × State
    report json =
        do_request network x.sha256_hex gzip gunzip (new_request_processor (signer_service cfg))
          base_url (codes "POST") (codes "/updates/") (some (ok json))

    abbrev saved : List (Metrics F) → State → Option Error × State
    saved ms s = Service.update_metrics st x.clock ms link.remote_addr s

    -- The agent's request for a report whose JSON is `json`.
    abbrev sent : Outgoing → HttpRequest
    sent o =
        incoming link
          (record { method = codes "POST"; url = base_url ++ codes "/updates/"; payload = some o })

    served-report :
        (ms : List (Metrics F)) (json : Text) (o : Outgoing) (s : State)
        → Fits
        → process_request x.sha256_hex gzip (new_request_processor (signer_service cfg)) json ≡ ok o
        → x.formats.decode_metrics json ≡ ok ms
        → (saved ms s).0 ≡ none
        → served cfg l (sent o) s ≡ (empty_success, (saved ms s).1)
    served-report ms json o s f p dec sv =
        let (b, b', ce, he, re) = received-Reads (signer_service cfg) o json (
          agent_request_accepted x.sha256_hex x.g gzip f.reads_back (signer_service cfg) json o
            p) in
        let r = sent o in
        served-admitted cfg l r s f.admits
        ∙ unpacked-passes cfg r b s ce
        ∙ ap (λ (a : Response × State). (reply_through x.g (codes "gzip") a.0, a.1))
            (checked-passes cfg r b b' update_metrics param s he f.found
              ∙ handle-report r b' param ms s
                  (ap (λ t. contains t application_json)
                      (process_request-type x.sha256_hex x.g gzip f.reads_back (signer_service cfg)
                        json o p)
                    ∙ contains-json)
                  (ap x.formats.decode_metrics (f.yields_all b' json re) ∙ dec) sv)
        ∙ ap (λ (q : Reply). (q, (saved ms s).1)) reply_through-ok

    -- `doRequest` of a report, against the server.
    pub report-stored :
        (ms : List (Metrics F)) (json : Text) (s : State)
        → Fits
        → x.formats.decode_metrics json ≡ ok ms
        → (saved ms s).0 ≡ none
        → report json s ≡ (ok [], (saved ms s).1)
    unfolding do_request prepare
    report-stored ms json s f dec sv =
        let (o, p) =
          process_request-total x.sha256_hex x.g gzip f.reads_back f.compresses (signer_service cfg)
            json in
        ground (
          arith,
          p,
          f.refuses,
          served-report ms json o s f p dec sv,
          empty_success-accept gunzip link f.reads_reply f.has_header,
        )
