-- ===== src/Handler/Compress.antt =====
-- The middleware of internal/handler/middlewares/compressor: what it does with a request, and the
-- writer that it puts in front of the response. compress/gzip is a parameter; the pools of readers
-- and writers only recycle memory and are left out.
pub mod Wire
use go_musthave_metrics.Base.{
  ℕ, ◌<◌, ◌⊎◌, inl, inr, Bool, true, false, ◌&&◌, ◌||◌, ◌==◌, not, Option, none, some, List, [],
  ◌∷◌, ◌++◌, ltb, leb, if◌then◌else◌,
}
use go_musthave_metrics.Base.Text.{Text, codes, str_eq}
use go_musthave_metrics.Base.Results.{Error, Result, ok, err}
use go_musthave_metrics.Handler.Http.{Response, http_error, status_ok, status_internal_server_error}
use go_musthave_metrics.Handler.Gzip.{is_gzip_encoding, gzip_word}

-- The ResponseWriter below: the status that was sent, the header Content-Encoding, the bytes.
pub record Inner : Type 0 where
  pub status : Option ℕ
  pub content_encoding : Text
  pub body : Text

-- net/http: a status of 1xx other than 101 is informational, and the final one comes later.
abbrev pub is_informational : ℕ → Bool
is_informational code = leb 100 code && (ltb code 200 && not (code == 101))

-- net/http: a response with 1xx, 204 or 304 has no body.
abbrev pub allows_body : ℕ → Bool
allows_body code = not (leb 100 code && ltb code 200) && not (code == 204 || code == 304)

-- `w.WriteHeader(code)` of the writer below: only the first final status counts.
abbrev inner_write_header : Inner → ℕ → Inner
inner_write_header w code = elim w.status [
  | some c ↦ w
  | none ↦ if is_informational code then w else record w { status = some code }
]

-- `w.Write(p)` of the writer below: it sends 200 if no status was sent, and `ErrBodyNotAllowed` is
-- returned where the status takes no body.
abbrev inner_write : Inner → Text → Inner
inner_write w p = elim w.status [
  | some c ↦ if allows_body c then record w { body = w.body ++ p } else w
  | none ↦ record w { status = some status_ok; body = w.body ++ p }
]

-- `plain` is what the gzip writer has taken and not yet flushed; `none` once it is closed.
pub record CompressWriter : Type 0 where
  pub w : Inner
  pub zw : Option Text
  pub status_code : ℕ
  pub header_written : Bool

unfoldable pub write_header : CompressWriter → ℕ → CompressWriter
write_header c code = if c.header_written then c else record c {
  header_written = true;
  status_code = code;
  w =
      inner_write_header
        (if ltb code 300 && leb 200 code then record c.w { content_encoding = gzip_word } else c.w)
        code;
}

pub write : CompressWriter → Text → CompressWriter
unfolding write_header
write c p =
    let c' = if c.header_written then c else write_header c status_ok in
    record c' { zw = elim c'.zw [ none ↦ none | some plain ↦ some (plain ++ p) ] }

module _ (gzip : Text → Text) where
  -- `Close` flushes the stream, also an empty one, into the writer below.
  unfoldable pub close : CompressWriter → CompressWriter
  close c = elim c.zw [
    | none ↦ c
    | some plain ↦ record c { w = inner_write c.w (gzip plain); zw = none }
  ]

-- `CompressResponse`: `none` leaves the writer as it is.
unfoldable pub compress_response : Inner → Text → Option CompressWriter
compress_response w accept_encoding =
    if not (str_eq w.content_encoding [])
    then none
    else if not (is_gzip_encoding accept_encoding)
    then none
    else some (record { w = w; zw = some []; status_code = 0; header_written = false })

-- The body of a request: as it came, or behind a gzip reader.
pub data Body : Type 0 where
  raw inflating : Text → Body

-- Package compress/gzip: `opens` reads the header of a stream, `gunzip` all of it.
pub record Gzip : Type 0 where
  pub opens : Text → Option Error
  pub gunzip : Text → Result Text
  pub gzip_text : Text → Text

module _ (g : Gzip) where
  -- `io.ReadAll(r.Body)`
  unfoldable pub read_all : Body → Result Text
  read_all (raw t) = ok t
  read_all (inflating t) = g.gunzip t

  unfoldable pub decompress_request : Text → Text → Result Body
  decompress_request content_encoding body =
      if not (is_gzip_encoding content_encoding)
      then ok (raw body)
      else elim (g.opens body) [ some e ↦ err e | none ↦ ok (inflating body) ]

  -- The middleware `Compress`: the response that it writes itself, or the body for the next handler.
  unfoldable pub compress : Text → Text → Response ⊎ Body
  unfolding decompress_request
  compress content_encoding body = elim (decompress_request content_encoding body) [
    | err e ↦
        inl (http_error (codes "Bad Request: invalid compressed body") status_internal_server_error)
    | ok b ↦ inr b
  ]
