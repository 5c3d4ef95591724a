-- ===== src/Server/Network.antt =====
-- A network on which every request of the agent's client reaches the router and is answered.
use go_musthave_metrics.Base.{Option, none, some, [], length}
use go_musthave_metrics.Base.Text.{Text, codes}
use go_musthave_metrics.Base.Ints.{pos}
use go_musthave_metrics.Base.Results.{Error, ok}
use go_musthave_metrics.Retry.{Duration}
use go_musthave_metrics.Agent.Client.{Outgoing}
use go_musthave_metrics.Agent.Client.Responses.{HttpResponse}
use go_musthave_metrics.Agent.Client.Requests.{Wire, Network}
use go_musthave_metrics.Handler.Http.{application_json}
use go_musthave_metrics.Server.{HttpRequest, Reply}

-- What the two ends add: the path of a URL, the client's address, the errors of
-- `http.NewRequest`, and the context and timer of the client's retries.
pub record Link (S : Type 0) : Type 0 where
  pub path_of : Text → Text
  pub remote_addr : Text
  pub refuses : Text → Text → Option Error
  pub ctx_err : S → Option Error
  pub wait : S → Duration → Option Error × S

module _ {S : Type 0} (link : Link S) where
  -- The headers of `setRequestHeaders`, as the server reads them.
  abbrev pub incoming : Wire → HttpRequest
  incoming w =
      let o : Outgoing = elim w.payload [
        | some o ↦ o
        | none ↦ record {
          body = [];
          content_type = application_json;
          content_encoding = [];
          hash_sha256 = [];
        }
      ] in
      record {
        method = w.method;
        path = link.path_of w.url;
        remote_addr = link.remote_addr;
        content_type = o.content_type;
        content_encoding = o.content_encoding;
        accept_encoding = codes "gzip";
        hash_sha256 = o.hash_sha256;
        hash = [];
        content_length = pos (length o.body);
        body = o.body;
      }

  abbrev pub http_response : Reply → HttpResponse
  http_response r = record {
    status_code = r.status;
    content_encoding = r.content_encoding;
    body = ok r.body;
  }

  -- `serving` is the server.
  abbrev pub connected : (HttpRequest → S → Reply × S) → Network S
  connected serving = record {
    refuses = link.refuses;
    send = λ w s. let (r, s') = serving (incoming w) s in (ok (http_response r), s');
    ctx_err = link.ctx_err;
    wait = link.wait;
  }
