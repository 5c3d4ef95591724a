-- ===== src/Agent/Client/Headers.antt =====
-- The state of client.go, `NewClient`, `SetHeader` and `setRequestHeaders`.
use go_musthave_metrics.Base.{
  true, false, ◌≡◌, refl, Bool-cases, Option-cases, Bool, inl, inr, Option, none, some, List, [],
  ◌∷◌, if◌then◌else◌, arith,
}
use go_musthave_metrics.Base.Text.{Text, codes, str_eq}
use go_musthave_metrics.Base.Maps.{GoMap, insert}
use go_musthave_metrics.Base.Results.{Result, ok, Result-cases}
use go_musthave_metrics.Handler.Http.{application_json}
use go_musthave_metrics.Agent.Client.{
  RequestProcessor, Outgoing, new_request_processor, normalize_url, should_compress, compress,
  process_request,
}

pub record Client : Type 0 where
  pub base_url : Text
  pub headers : GoMap Text
  pub request_processor : RequestProcessor

-- `NewRequestProcessor` takes this level, so there is no error.
new_client : Text → Option Text → Client
new_client base_url signer = record {
  base_url = normalize_url base_url;
  headers = [];
  request_processor = new_request_processor signer;
}

set_header : Client → Text → Text → Client
set_header c key value = record c { headers = insert key value c.headers }

-- `Header.Set` of net/http. `headers` is what the loop over the map visits.
module _ {Header : Type 0} (set : Text → Text → Header → Header) where
  set_all : List (Text × Text) → Header → Header
  set_all [] header = header
  set_all ((key, value) ∷ headers) header = set_all headers (set key value header)

  set_request_headers : RequestProcessor → List (Text × Text) → Option Text → Text → Header → Header
  unfolding set_all
  set_request_headers rp headers body_data hash_value header =
      let header1 =
        set (codes "Accept-Encoding") (codes "gzip")
          (set (codes "Content-Type") application_json (set_all headers header)) in
      elim body_data [
        | none ↦ header1
        | some body ↦
            let header2 =
              if should_compress rp body
              then set (codes "Content-Encoding") (codes "gzip") header1
              else header1 in
            elim rp.signer [
              | none ↦ header2
              | some key ↦ set (codes "HashSHA256") hash_value header2
            ]
      ]

-- What net/http documents of `Set` and `Get`.
record SetsHeaders {Header : Type 0} (set : Text → Text → Header → Header)
    (get : Header → Text → Text) (canonical : Text → Text) : Type 0 where
  get_set :
      (k v j : Text) (h : Header)
      → get (set k v h) j ≡ (if str_eq (canonical k) (canonical j) then v else get h j)
  of_type : canonical (codes "Content-Type") ≡ codes "Content-Type"
  of_encoding : canonical (codes "Content-Encoding") ≡ codes "Content-Encoding"
  of_accept : canonical (codes "Accept-Encoding") ≡ codes "Accept-Encoding"
  of_hash : canonical (codes "HashSHA256") ≡ codes "Hashsha256"

module _ {Header : Type 0} (set : Text → Text → Header → Header) (get : Header → Text → Text)
    (canonical : Text → Text) (laws : SetsHeaders set get canonical) (sha256_hex : Text → Text)
    (gzip : Text → Result Text) where
  open laws use {get_set, of_type, of_encoding, of_accept, of_hash}

  -- What the three headers read.
  abbrev Reads : Header → Text → Text → Text → Type 0
  Reads h content_type content_encoding hash =
      (get h (codes "Content-Type") ≡ content_type)
      × (get h (codes "Content-Encoding") ≡ content_encoding)
      × (get h (codes "HashSHA256") ≡ hash)

  abbrev Fresh : Header → Type 0
  Fresh header = (k : Text) → get header k ≡ []

  types : Header → Header
  types header =
      set (codes "Accept-Encoding") (codes "gzip")
        (set (codes "Content-Type") application_json header)

  types-Reads : (h : Header) → Fresh h → Reads (types h) application_json [] []
  unfolding types str_eq
  types-Reads h fresh =
      simp (get_set, of_type, of_encoding, of_accept, of_hash, fresh) (refl, refl, refl)

  encoded-Reads :
      (h : Header) (t e x : Text)
      → Reads h t e x
      → Reads (set (codes "Content-Encoding") (codes "gzip") h) t (codes "gzip") x
  unfolding str_eq
  encoded-Reads h t e x (rt, re, rx) =
      simp (get_set, of_type, of_encoding, of_hash, rt, rx) (refl, refl, refl)

  signed-Reads :
      (h : Header) (t e x v : Text) → Reads h t e x → Reads (set (codes "HashSHA256") v h) t e v
  unfolding str_eq
  signed-Reads h t e x v (rt, re, rx) =
      simp (get_set, of_type, of_encoding, of_hash, rt, re) (refl, refl, refl)

  abbrev Processed : RequestProcessor → Text → Outgoing → Type 0
  Processed rp json_data o = process_request sha256_hex gzip rp json_data ≡ ok o

  encoding_of : Bool → Text
  encoding_of z = if z then codes "gzip" else []

  Processed-fields :
      (rp : RequestProcessor) (json_data : Text) (o : Outgoing)
      → Processed rp json_data o
      → (o.content_type ≡ application_json)
        × (o.content_encoding ≡ encoding_of (should_compress rp json_data))
        × (rp.signer ≡ none → o.hash_sha256 ≡ [])
  unfolding process_request encoding_of
  Processed-fields rp json_data o done = elim (Bool-cases (should_compress rp json_data)) [
    | inr z ↦ (ground (arith, done, z), ground (arith, done, z), λ k. ground (arith, done, z, k))
    | inl z ↦ elim (Result-cases (compress sha256_hex gzip json_data)) [
      | inl (t, e) ↦ (
        ground (arith, done, z, e),
        ground (arith, done, z, e),
        λ k. ground (arith, done, z, e, k),
      )
      | inr (x, e) ↦ ground (arith, done, z, e)
    ]
  ]

  encoding-Reads :
      (h : Header) (z : Bool)
      → Fresh h
      → Reads
          (if z then set (codes "Content-Encoding") (codes "gzip") (types h) else types h)
          application_json
          (encoding_of z)
          []
  unfolding encoding_of
  encoding-Reads h true fresh = encoded-Reads (types h) application_json [] [] (types-Reads h fresh)
  encoding-Reads h false fresh = types-Reads h fresh

  -- The headers of a request with a body are those of the processed request, on a client to which no
  -- others were given.
  sent_headers :
      (rp : RequestProcessor) (json_data : Text) (o : Outgoing) (header : Header)
      → Fresh header
      → Processed rp json_data o
      → Reads
          (set_request_headers set rp [] (some json_data) o.hash_sha256 header)
          o.content_type
          o.content_encoding
          o.hash_sha256
  unfolding set_request_headers types should_compress
  sent_headers rp json_data o header fresh done =
      let (t, e, unsigned) = Processed-fields rp json_data o done in
      let read = encoding-Reads header (should_compress rp json_data) fresh in
      elim (Option-cases rp.signer) [
        | inl k ↦ rw (k, t, e, unsigned k) read
        | inr (key, k) ↦ rw (k, t, e) (signed-Reads _ application_json _ [] o.hash_sha256 read)
      ]
