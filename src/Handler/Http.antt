-- ===== src/Handler/Http.antt =====
-- What the handlers read of a request and write of a response (net/http).
use go_musthave_metrics.Base.{ℕ, Bool, [], ◌++◌}
use go_musthave_metrics.Base.Text.{Text, codes}
use go_musthave_metrics.Base.Ints.{ℤ}

abbrev pub status_ok : ℕ
status_ok = 200

abbrev pub status_bad_request : ℕ
status_bad_request = 400

abbrev pub status_not_found : ℕ
status_not_found = 404

abbrev pub status_unsupported_media_type : ℕ
status_unsupported_media_type = 415

abbrev pub status_too_many_requests : ℕ
status_too_many_requests = 429

abbrev pub status_service_unavailable : ℕ
status_service_unavailable = 503

abbrev pub status_internal_server_error : ℕ
status_internal_server_error = 500

pub record Response : Type 0 where
  pub status : ℕ
  pub content_type : Text
  pub body : Text

pub record Request : Type 0 where
  pub content_type : Text
  -- `r.Body != nil`
  pub has_body : Bool
  pub content_length : ℤ
  pub body : Text
  pub remote_addr : Text

abbrev pub application_json : Text
application_json = codes "application/json"

abbrev newline : Text
newline = codes "\n"

-- `http.Error(w, msg, code)`
abbrev pub http_error : Text → ℕ → Response
http_error msg code = record {
  status = code;
  content_type = codes "text/plain; charset=utf-8";
  body = msg ++ newline;
}

-- `w.WriteHeader(code)` with nothing written after it.
abbrev pub header_only : ℕ → Response
header_only code = record { status = code; content_type = []; body = [] }
