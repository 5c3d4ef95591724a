-- ===== src/Agent/Client/Responses.antt =====
-- internal/agent/client/response_processor.go, and `Decompress` of
-- internal/service/compressor_service. Texts are ASCII where blanks are trimmed.
use go_musthave_metrics.Base.{
  ℕ, ◌≡◌, ◌≢◌, refl, Bool, true, ◌&&◌, ◌||◌, [], ◌∷◌, ◌++◌, any, ◌==◌, leb, if◌then◌else◌,
}
use go_musthave_metrics.Base.Text.{Text, codes, str_eq, lower, to_lower, split}
use go_musthave_metrics.Base.Results.{Result, ok, err}

-- What `client.Do` returns: the status, the header Content-Encoding, and what reading the body gives.
pub record HttpResponse : Type 0 where
  pub status_code : ℕ
  pub content_encoding : Text
  pub body : Result Text

unfoldable is_space : ℕ → Bool
is_space c = c == b' ' || leb 9 c && leb c 13

unfoldable pub trim_left : Text → Text
unfolding is_space
trim_left [] = []
trim_left (c ∷ s) = if is_space c then trim_left s else c ∷ s

unfoldable pub trim_right : Text → Text
unfolding is_space
trim_right [] = []
trim_right (c ∷ s) =
    let rest = trim_right s in if str_eq rest [] && is_space c then [] else c ∷ rest

-- `strings.TrimSpace(s)`
unfoldable pub trim_space : Text → Text
unfolding trim_left trim_right
trim_space s = trim_right (trim_left s)

unfoldable pub is_gzip_encoding : Text → Bool
unfolding trim_space any split str_eq to_lower
is_gzip_encoding enc =
    any (λ part. str_eq (trim_space (to_lower part)) (codes "gzip")) (split b',' enc)

is_gzip_encoding-gzip : is_gzip_encoding (codes "gzip") ≡ true
unfolding is_gzip_encoding trim_space trim_left trim_right is_space any split str_eq to_lower lower
is_gzip_encoding-gzip = refl

-- `gunzip` is gzip.NewReader and io.ReadAll.
module _ (gunzip : Text → Result Text) where
  unfoldable decompress : Text → Result Text
  decompress [] = ok []
  decompress (c ∷ s) = gunzip (c ∷ s)

  unfoldable pub process_response : HttpResponse → Result Text
  unfolding decompress
  process_response resp = elim resp.body [
    | err e ↦ err (codes "reading response body failed: " ++ e)
    | ok raw ↦
        if is_gzip_encoding resp.content_encoding
        then elim (decompress raw) [
          | err e ↦ err (codes "decompressing response body failed: " ++ e)
          | ok t ↦ ok t
        ]
        else ok raw
  ]

  -- A compressed body is read as what it inflates to.
  pub process_response-gzip :
      (n : ℕ) (z t : Text)
      → gunzip z ≡ ok t
      → z ≢ []
      → process_response (record { status_code = n; content_encoding = codes "gzip"; body = ok z })
        ≡ ok t
  unfolding process_response decompress
  process_response-gzip n [] t e ne = absurd (ne refl)
  process_response-gzip n (c ∷ z) t e ne = rw (is_gzip_encoding-gzip, e) refl
