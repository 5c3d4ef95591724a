-- ===== src/Handler/Gzip.antt =====
-- `isGzipEncoding` of internal/handler/middlewares/compressor/gzip.go. An index into the header is
-- the part of the header from there on.
pub mod Parts
use go_musthave_metrics.Base.{
  ℕ, zero, suc, Bool, true, false, ◌&&◌, ◌||◌, not, Option, none, some, List, [], ◌∷◌, ◌==◌, length,
  if◌then◌else◌,
}
use go_musthave_metrics.Base.Text.{Text, codes, str_eq, contains, lower}

-- The loop over blanks and commas.
pub skip_separators : Text → Text
skip_separators [] = []
skip_separators (c ∷ s) = if c == b' ' || c == b',' then skip_separators s else c ∷ s

-- The loop to the next comma, and the step over it.
pub skip_to_comma : Text → Text
skip_to_comma [] = []
skip_to_comma (c ∷ s) = if c == b',' then s else skip_to_comma s

-- What follows `word`, in any case, at the start of the text.
pub strip_word : Text → Text → Option Text
strip_word [] s = some s
strip_word (p ∷ ps) [] = none
strip_word (p ∷ ps) (c ∷ s) = if lower c == p then strip_word ps s else none

abbrev pub gzip_word : Text
gzip_word = codes "gzip"

-- The value stops at the end of the header, at a comma or at a blank.
pub ends_value : Text → Bool
ends_value [] = true
ends_value (c ∷ s) = c == b',' || c == b' '

pub is_gzip_value : Text → Bool
unfolding strip_word ends_value
is_gzip_value s = elim (strip_word gzip_word s) [ none ↦ false | some rest ↦ ends_value rest ]

-- The main loop, on fuel.
pub scan : ℕ → Text → Bool
unfolding is_gzip_value skip_separators skip_to_comma
scan zero s = false
scan (suc f) [] = false
scan (suc f) (c ∷ s) = elim (is_gzip_value (skip_separators (c ∷ s))) [
  | true ↦ true
  | false ↦ scan f (skip_to_comma (skip_separators (c ∷ s)))
]

unfoldable pub is_gzip_encoding : Text → Bool
unfolding scan contains
is_gzip_encoding enc =
    if str_eq enc [] || not (contains enc gzip_word) then false else scan (suc (length enc)) enc
