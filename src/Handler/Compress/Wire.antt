-- ===== src/Handler/Compress/Wire.antt =====
-- What goes over the wire through the compressing writer.
use mathlib.Core.List.{append-nil, append_assoc}
use go_musthave_metrics.Base.{
  ℕ, ◌≡◌, refl, sym, ap, ◌∙◌, Bool, true, false, ◌&&◌, ◌||◌, ◌==◌, Option, none, some, List, [],
  ◌∷◌, ◌++◌, ltb, leb, arith, if◌then◌else◌,
}
use go_musthave_metrics.Base.Text.{Text}
use go_musthave_metrics.Handler.Http.{status_ok}
use go_musthave_metrics.Handler.Gzip.{gzip_word}
use go_musthave_metrics.Handler.Compress.{
  Inner, CompressWriter, write_header, write, close, is_informational,
}

-- What a handler does with its ResponseWriter.
pub data Op : Type 0 where
  sends_header : ℕ → Op
  writes : Text → Op

unfoldable pub run : CompressWriter → List Op → CompressWriter
run c [] = c
run c (sends_header n ∷ ops) = run (write_header c n) ops
run c (writes p ∷ ops) = run (write c p) ops

-- The status that the handler means: that of its first call, 200 if that writes.
abbrev first_status : List Op → Option ℕ
first_status [] = none
first_status (sends_header n ∷ ops) = some n
first_status (writes p ∷ ops) = some status_ok

-- All that the handler writes.
pub written : List Op → Text
written [] = []
written (sends_header n ∷ ops) = written ops
written (writes p ∷ ops) = p ++ written ops

abbrev is_success : ℕ → Bool
is_success n = ltb n 300 && leb 200 n

-- Once the header is out, the writer only collects what is written.
run_collects :
    (c : CompressWriter) (plain : Text) (ops : List Op)
    → c.header_written ≡ true
    → c.zw ≡ some plain
    → ((run c ops).w ≡ c.w) × ((run c ops).zw ≡ some (plain ++ written ops))
unfolding run written write_header write
run_collects c plain [] h z = (refl, z ∙ ap some (sym (append-nil plain)))
run_collects c plain (sends_header n ∷ ops) h z =
    ground (arith, run_collects (write_header c n) plain ops)
run_collects c plain (writes p ∷ ops) h z =
    ground (arith, run_collects (write c p) (plain ++ p) ops, append_assoc plain p (written ops))

-- A final status after which net/http sends no body.
abbrev has_no_body : ℕ → Bool
has_no_body n = n == 101 || (n == 204 || n == 304)

-- The handler's first status is a final one.
abbrev pub IsFinal : List Op → Type 0
IsFinal [] = Unit {0}
IsFinal (sends_header n ∷ ops) = is_informational n ≡ false
IsFinal (writes p ∷ ops) = Unit {0}

-- What is sent for these operations.
abbrev pub Sent : (Text → Text) → List Op → Inner → Type 0
Sent gzip ops w =
    (w.body ≡ (
      if elim (first_status ops) [ some n ↦ has_no_body n | none ↦ false ]
      then []
      else gzip (written ops)))
    × (w.status ≡ some (elim (first_status ops) [ some n ↦ n | none ↦ status_ok ]))
    × (w.content_encoding
        ≡ elim (first_status ops) [ some n ↦ if is_success n then gzip_word else [] | none ↦ [] ])

abbrev pub fresh : CompressWriter
fresh = record {
  w = record { status = none; content_encoding = []; body = [] };
  zw = some [];
  status_code = 0;
  header_written = false;
}

-- The response that a handler makes through a fresh writer, when its first status is not an
-- informational one: the status is that first one, or 200; the body is gzip of all that was written,
-- also where that is nothing, but for 101, 204 and 304, which have no body; and the header
-- Content-Encoding says gzip exactly when that status is a success that was sent before the end.
pub close-Sent :
    (gzip : Text → Text) (ops : List Op)
    → IsFinal ops
    → Sent gzip ops (close gzip (run fresh ops)).w
unfolding close run written write_header write
close-Sent gzip [] final = (refl, refl, refl)
close-Sent gzip (sends_header n ∷ ops) final =
    ground (arith, final, run_collects (write_header fresh n) [] ops refl refl)
close-Sent gzip (writes p ∷ ops) final =
    ground (arith, run_collects (write fresh p) p ops refl refl)
