-- ===== src/Handler/Hash.antt =====
-- internal/handler/middlewares/signer/signer.go and internal/service/signerservice: the hash of a
-- body under a key. SHA-256 in hexadecimal is a parameter.
use go_musthave_metrics.Base.{Bool, ◌||◌, not, Option, none, some, [], ◌++◌, if◌then◌else◌}
use go_musthave_metrics.Base.Text.{Text, codes, str_eq}
use go_musthave_metrics.Base.Results.{ok, err}
use go_musthave_metrics.Handler.Http.{Response, application_json, status_bad_request}
use go_musthave_metrics.Handler.Compress.{Gzip, Body, raw, read_all}

-- What the middleware does: it calls the next handler with a body, or answers.
pub data Verdict : Type 0 where
  passes : Body → Verdict
  rejects : Response → Verdict

abbrev pub bad_hash : Response
bad_hash = record { status = status_bad_request; content_type = application_json; body = [] }

module _ (sha256_hex : Text → Text) where
  -- `SHA256Signer.Sign`
  unfoldable pub sign : Text → Text → Text
  sign key data_bytes = sha256_hex (key ++ data_bytes)

  -- `SHA256Signer.Verify`
  unfoldable pub verify : Text → Text → Text → Bool
  unfolding sign
  verify key data_bytes expected_hash = str_eq (sign key data_bytes) expected_hash

  -- `signer` is the key, `none` for a nil signer; then the headers HashSHA256 and Hash.
  unfoldable pub hash_validation : Gzip → Option Text → Text → Text → Body → Verdict
  unfolding verify read_all
  hash_validation g none hash_sha256 hash body = passes body
  hash_validation g (some key) hash_sha256 hash body =
      let given_hash = if str_eq hash_sha256 [] then hash else hash_sha256 in
      if str_eq given_hash [] || str_eq given_hash (codes "none")
      then passes body
      else elim (read_all g body) [
        | err e ↦ rejects bad_hash
        | ok bytes ↦
            if not (verify key bytes given_hash) then rejects bad_hash else passes (raw bytes)
      ]
