-- ===== src/Handler/Gzip/Parts.antt =====
-- The scan against the comma-separated parts of the header.
use go_musthave_metrics.Base.{any}
use go_musthave_metrics.Base.{
  ℕ, zero, suc, ◌-◌, ◌≤◌, ◌<◌, ◌≡◌, ◌≢◌, refl, sym, Bool, false, ◌&&◌, none, some, List, [], ◌∷◌,
  ◌==◌, length, map, All, arith, if◌then◌else◌,
}
use go_musthave_metrics.Base.Text.{Text, lower, split_first, contains, str_eq}
use go_musthave_metrics.Handler.Gzip.{
  skip_separators, skip_to_comma, strip_word, gzip_word, ends_value, is_gzip_value, scan,
  is_gzip_encoding,
}

-- `strings.Split(s, ",")` is the first part and these.
pub parts_after : Text → List Text
parts_after [] = []
parts_after (c ∷ s) = if c == b',' then split_first b',' s ∷ parts_after s else parts_after s

abbrev pub parts : Text → List Text
parts s = split_first b',' s ∷ parts_after s

skip_blanks : Text → Text
skip_blanks [] = []
skip_blanks (c ∷ s) = if c == b' ' then skip_blanks s else c ∷ s

-- The first of the words of a part, which blanks separate.
first_word : Text → Text
first_word p = split_first b' ' (skip_blanks p)

-- A part whose first word is gzip, in any case.
pub is_gzip_part : Text → Bool
is_gzip_part p = str_eq (map lower (first_word p)) gzip_word

empty_part : is_gzip_part [] ≡ false
unfolding is_gzip_part skip_blanks split_first first_word str_eq
empty_part = refl

blank_part : (c : ℕ) (p : Text) → c ≡ b' ' → is_gzip_part (c ∷ p) ≡ is_gzip_part p
unfolding is_gzip_part skip_blanks first_word
blank_part c p e = ground arith

any-skip_separators :
    (s : Text) → any is_gzip_part (parts (skip_separators s)) ≡ any is_gzip_part (parts s)
unfolding skip_separators parts_after split_first any
any-skip_separators [] = refl
any-skip_separators (c ∷ s) =
    ground (arith, any-skip_separators s, empty_part, blank_part c (split_first b',' s))

any-skip_to_comma :
    (s : Text) → any is_gzip_part (parts (skip_to_comma s)) ≡ any is_gzip_part (parts_after s)
unfolding skip_to_comma parts_after split_first any
any-skip_to_comma [] = rw empty_part
any-skip_to_comma (c ∷ s) = ground (arith, any-skip_to_comma s)

-- The text up to the first comma or blank.
until : Text → Text
until s = split_first b' ' (split_first b',' s)

-- The code strips the word and looks at what follows; no letter of the word ends a value.
strip_word-until :
    (w s : Text)
    → All (λ p. (p ≢ b',') × (p ≢ b' ')) w
    → elim (strip_word w s) [ none ↦ false | some rest ↦ ends_value rest ]
      ≡ str_eq (map lower (until s)) w
unfolding strip_word split_first lower until ends_value str_eq
strip_word-until [] [] h = refl
strip_word-until [] (c ∷ s) h = ground arith
strip_word-until (p ∷ ps) [] h = refl
strip_word-until (p ∷ ps) (c ∷ s) h = ground (arith, strip_word-until ps s h.1, h.0.0, h.0.1)

is_gzip_value-until : (s : Text) → is_gzip_value s ≡ str_eq (map lower (until s)) gzip_word
unfolding is_gzip_value
is_gzip_value-until s = strip_word-until gzip_word s (omega arith)

no_blank :
    (s : Text)
    → skip_blanks (split_first b',' (skip_separators s)) ≡ split_first b',' (skip_separators s)
unfolding skip_blanks split_first skip_separators
no_blank [] = refl
no_blank (c ∷ s) = ground (arith, no_blank s)

length-skip_separators : (s : Text) → length (skip_separators s) ≤ length s
unfolding skip_separators
length-skip_separators [] = omega arith
length-skip_separators (c ∷ s) = ground (arith, length-skip_separators s)

length-skip_to_comma : (s : Text) → length (skip_to_comma s) ≤ length s - 1
unfolding skip_to_comma
length-skip_to_comma [] = omega arith
length-skip_to_comma (c ∷ s) = ground (arith, length-skip_to_comma s)

first_part :
    (s : Text)
    → is_gzip_part (split_first b',' (skip_separators s)) ≡ is_gzip_value (skip_separators s)
unfolding is_gzip_part first_word until
first_part s = rw (no_blank s) (sym (is_gzip_value-until (skip_separators s)))

any_empty : any is_gzip_part (parts []) ≡ false
unfolding any parts_after split_first
any_empty = rw empty_part

-- With more fuel than bytes the scan ends, and it accepts a header exactly when one of its
-- comma-separated parts has gzip as its first word.
scan-parts : (f : ℕ) (s : Text) → length s < f → scan f s ≡ any is_gzip_part (parts s)
unfolding scan any
scan-parts zero s h = absurd (omega arith)
scan-parts (suc f) [] h = rw any_empty
scan-parts (suc f) (c ∷ s) h =
    let t = skip_separators (c ∷ s) in
    rw (← any-skip_separators (c ∷ s)) (
      ground (
        arith,
        first_part (c ∷ s),
        any-skip_to_comma t,
        length-skip_separators (c ∷ s),
        length-skip_to_comma t,
        scan-parts f (skip_to_comma t),
      ))

-- The header is accepted exactly when it holds the word gzip in lower case somewhere, and one of its
-- comma-separated parts has that word, in any case, as the first of those that blanks separate.
pub is_gzip_encoding-parts :
    (enc : Text) → is_gzip_encoding enc ≡ (contains enc gzip_word && any is_gzip_part (parts enc))
unfolding is_gzip_encoding str_eq
is_gzip_encoding-parts [] = refl
is_gzip_encoding-parts (c ∷ s) =
    rw (scan-parts (suc (length (c ∷ s))) (c ∷ s) (omega arith)) (unfold str_eq in ground arith)
