-- ===== src/Server/Forged.antt =====
-- What the router does with a request whose hash does not fit its body.
use go_musthave_metrics.Base.{
  ◌≡◌, ◌≢◌, ◌≤◌, refl, sym, inr, Bool, true, false, [], arith, if◌then◌else◌,
}
use go_musthave_metrics.Base.Text.{Text, codes, str_eq, str_eq-false}
use go_musthave_metrics.Base.Results.{ok}
use go_musthave_metrics.Storage.Interface.{Storage}
use go_musthave_metrics.Service.{ServiceState}
use go_musthave_metrics.Handler.Http.{status_bad_request}
use go_musthave_metrics.Handler.Compress.{
  Body, compress, compress_response, read_all, write_header, close,
}
use go_musthave_metrics.Handler.Compress.Wire.{run}
use go_musthave_metrics.Handler.Hash.{sign, verify, hash_validation, bad_hash}
use go_musthave_metrics.Handler.Limits.{Limiter}
use go_musthave_metrics.Server.{
  HttpRequest, RouterFlags, Outside, checked, unpacked, serve, plain_reply, reply_through,
}

-- The header HashSHA256, or else the header Hash.
abbrev pub given_hash : HttpRequest → Text
given_hash r = if str_eq r.hash_sha256 [] then r.hash else r.hash_sha256

module _ {F S Time : Type 0} (x : Outside F Time) (st : Storage F S) (cfg : RouterFlags) where
  checked-forged :
      (r : HttpRequest) (b : Body) (t : Text) (s : ServiceState S Time)
      → cfg.secret_key ≢ []
      → given_hash r ≢ []
      → given_hash r ≢ codes "none"
      → read_all x.g b ≡ ok t
      → given_hash r ≢ sign x.sha256_hex cfg.secret_key t
      → checked x st cfg r b s ≡ (bad_hash, s)
  unfolding checked hash_validation verify
  checked-forged r b t s key given not_none reads forged = ground (
    arith,
    str_eq-false cfg.secret_key [] key,
    str_eq-false (given_hash r) [] given,
    str_eq-false (given_hash r) (codes "none") not_none,
    str_eq-false (sign x.sha256_hex cfg.secret_key t) (given_hash r) (λ e. forged (sym e)),
  )

  reply_through-bad_hash :
      (accept_encoding : Text)
      → (reply_through x.g accept_encoding bad_hash).status ≡ status_bad_request
  unfolding reply_through compress_response plain_reply close run write_header
  reply_through-bad_hash accept_encoding = ground arith

  -- On a server with a key, a request whose hash header is neither empty nor none, whose body can be
  -- read, and whose hash is not that of the body under the key, changes nothing, whatever its
  -- endpoint, and is answered with a status of at least 400.
  pub forged_request_refused :
      (down : Bool) (l : Limiter) (r : HttpRequest) (b : Body) (t : Text) (s : ServiceState S Time)
      → cfg.secret_key ≢ []
      → given_hash r ≢ []
      → given_hash r ≢ codes "none"
      → compress x.g r.content_encoding r.body ≡ inr b
      → read_all x.g b ≡ ok t
      → given_hash r ≢ sign x.sha256_hex cfg.secret_key t
      → ((serve x st cfg down l r s).1 ≡ s) × (400 ≤ (serve x st cfg down l r s).0.status)
  unfolding serve unpacked plain_reply
  forged_request_refused true l r b t s key given not_none opened reads forged = (refl, omega arith)
  forged_request_refused false l r b t s key given not_none opened reads forged = ground (
    arith,
    opened,
    checked-forged r b t s key given not_none reads forged,
    reply_through-bad_hash r.accept_encoding,
  )
