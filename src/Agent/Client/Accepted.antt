-- ===== src/Agent/Client/Accepted.antt =====
-- A request of the agent against the server's middlewares.
use go_musthave_metrics.Base.{
  ◌≡◌, refl, ap, inl, inr, leb, length, Option, none, some, [], ◌∷◌, arith, ◌⊎◌, Bool-cases,
}
use go_musthave_metrics.Base.Text.{Text, codes, str_eq, str_eq_refl, lower}
use go_musthave_metrics.Base.Results.{Result, ok, Result-cases}
use go_musthave_metrics.Handler.Http.{application_json}
use go_musthave_metrics.Handler.Gzip.{is_gzip_encoding}
use go_musthave_metrics.Handler.Compress
use go_musthave_metrics.Handler.Compress.{Gzip, Body, raw, inflating, read_all, decompress_request}
use go_musthave_metrics.Handler.Hash.{passes, rejects, sign, verify, hash_validation}
use go_musthave_metrics.Agent.Client.{
  Outgoing, process_request, should_compress, new_request_processor, compress,
}

-- The two middlewares in the order of the router, on an agent's request. `none` is their own answer.
abbrev pub received : (Text → Text) → Gzip → Option Text → Outgoing → Option (Result Text)
received sha256_hex g key o = elim (Compress.compress g o.content_encoding o.body) [
  | inl r ↦ none
  | inr b ↦ elim (hash_validation sha256_hex g key o.hash_sha256 [] b) [
    | rejects r ↦ none
    | passes b' ↦ some (read_all g b')
  ]
]

-- What package compress/gzip documents: a compressed text opens and reads back.
pub record ReadsBack (g : Gzip) (gzip : Text → Result Text) : Type 0 where
  pub opened : (t z : Text) → gzip t ≡ ok z → g.opens z ≡ none
  pub inflated : (t z : Text) → gzip t ≡ ok z → g.gunzip z ≡ ok t

module _ (sha256_hex : Text → Text) (g : Gzip) (gzip : Text → Result Text)
    (back : ReadsBack g gzip) where
  hash_accepts :
      (key : Text) (b : Body) (t : Text)
      → read_all g b ≡ ok t
      → elim (hash_validation sha256_hex g (some key) (sign sha256_hex key t) [] b) [
        | rejects r ↦ none
        | passes b' ↦ some (read_all g b')
      ]
        ≡ some (ok t)
  unfolding hash_validation verify read_all
  hash_accepts key b t e = ground (arith, str_eq_refl (sign sha256_hex key t))

  hash_value : Option Text → Text → Text
  hash_value key t = elim key [ none ↦ [] | some k ↦ sign sha256_hex k t ]

  outgoing : Option Text → Text → Text → Text → Outgoing
  outgoing key t z encoding = record {
    body = z;
    content_type = application_json;
    content_encoding = encoding;
    hash_sha256 = hash_value key t;
  }

  received-outgoing :
      (key : Option Text) (t z encoding : Text) (b : Body)
      → Compress.compress g encoding z ≡ inr b
      → read_all g b ≡ ok t
      → received sha256_hex g key (outgoing key t z encoding) ≡ some (ok t)
  unfolding outgoing hash_value hash_validation Compress.compress is_gzip_encoding str_eq
  received-outgoing none t z encoding b e r = rw (e, r) refl
  received-outgoing (some k) t z encoding b e r = rw e (hash_accepts k b t r)

  compress_total :
      ((t : Text) → (z : Text) × (gzip t ≡ ok z))
      → (t : Text) → (z : Text) × (compress sha256_hex gzip t ≡ ok z)
  unfolding compress
  compress_total h [] = ([], refl)
  compress_total h (c ∷ t) = h (c ∷ t)

  process_request-cases :
      (key : Option Text) (t : Text) (o : Outgoing)
      → process_request sha256_hex gzip (new_request_processor key) t ≡ ok o
      → (o ≡ outgoing key t t [])
        ⊎ ((z : Text) × (gzip t ≡ ok z) × (o ≡ outgoing key t z (codes "gzip")))
  unfolding process_request outgoing hash_value compress should_compress
  process_request-cases key (c ∷ t) o e = elim (Bool-cases (leb 32 (length (c ∷ t)))) [
    | inl small ↦ elim (Result-cases (gzip (c ∷ t))) [
      | inl (z, ez) ↦ inr (z, ez, ground (arith, e, small, ez))
      | inr (x, ex) ↦ ground (arith, e, small, ex)
    ]
    | inr big ↦ inl (ground (arith, e, big))
  ]
  process_request-cases key [] o e = inl (ground (arith, e))

  -- A gzip that never fails prepares every request.
  pub process_request-total :
      ((t : Text) → (z : Text) × (gzip t ≡ ok z))
      → (key : Option Text) (t : Text)
      → (o : Outgoing) × (process_request sha256_hex gzip (new_request_processor key) t ≡ ok o)
  unfolding process_request should_compress outgoing hash_value
  process_request-total h key t = elim (Bool-cases (leb 32 (length t))) [
    | inl small ↦
        let (z, e) = compress_total h t in
        (outgoing key t z (codes "gzip"), ground (arith, small, e))
    | inr big ↦ (outgoing key t t [], ground (arith, big))
  ]

  -- Every prepared request says that its body is JSON.
  pub process_request-type :
      (key : Option Text) (t : Text) (o : Outgoing)
      → process_request sha256_hex gzip (new_request_processor key) t ≡ ok o
      → o.content_type ≡ application_json
  unfolding outgoing
  process_request-type key t o e = elim (process_request-cases key t o e) [
    | inl p ↦ ap (λ (o : Outgoing). o.content_type) p
    | inr (z, ez, p) ↦ ap (λ (o : Outgoing). o.content_type) p
  ]

  takes_plain : (t : Text) → Compress.compress g [] t ≡ inr (raw t)
  unfolding Compress.compress decompress_request is_gzip_encoding str_eq
  takes_plain t = refl

  opens_stream :
      (t z : Text) → gzip t ≡ ok z → Compress.compress g (codes "gzip") z ≡ inr (inflating z)
  unfolding Compress.compress decompress_request is_gzip_encoding str_eq lower
  opens_stream t z e = rw (back.opened t z e)

  inflates : (t z : Text) → gzip t ≡ ok z → read_all g (inflating z) ≡ ok t
  unfolding read_all
  inflates t z e = back.inflated t z e

  reads_plain : (t : Text) → read_all g (raw t) ≡ ok t
  unfolding read_all
  reads_plain t = refl

  -- A request that the agent prepares passes the decompression and the hash check of a server with
  -- the same key, or without a key on both sides, and the handler reads the JSON that the agent
  -- marshalled, when gzip reads back what it wrote.
  pub agent_request_accepted :
      (key : Option Text) (json_data : Text) (o : Outgoing)
      → process_request sha256_hex gzip (new_request_processor key) json_data ≡ ok o
      → received sha256_hex g key o ≡ some (ok json_data)
  agent_request_accepted key t o e = elim (process_request-cases key t o e) [
    | inl p ↦ rw p (received-outgoing key t t [] (raw t) (takes_plain t) (reads_plain t))
    | inr (z, ez, p) ↦ rw p (
        received-outgoing key t z (codes "gzip") (inflating z) (opens_stream t z ez)
          (inflates t z ez))
  ]
