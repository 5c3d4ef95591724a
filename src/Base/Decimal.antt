-- ===== src/Base/Decimal.antt =====
-- Decimal text of a number, as `fmt.Sprintf("%d", n)` and `strconv.FormatInt(n, 10)` print it, and
-- the value of a text of digits.
pub mod Digits
use Prim.Native.Nat.{ℕ, zero, suc, ◌+◌, ◌-◌, ◌*◌, ◌/◌, ◌%◌, ◌<◌}
use mathlib.Core.Path.{◌≡◌, refl, ◌∙◌, ap, sym}
use mathlib.Core.Bool.{Bool, true, ◌&&◌}
use mathlib.Core.Option
use mathlib.Core.Option.{Option, none, some}
use mathlib.Core.List.{[], ◌∷◌, ◌++◌}
use mathlib.Core.Logic.{inl, inr}
use native.Mathlib.Omega.{arith}
use go_musthave_metrics.Base.Tests.{ltb, leb, ◌==◌, if◌then◌else◌, Bool-cases}
use go_musthave_metrics.Base.Text.{Text, codes}
use go_musthave_metrics.Base.Words.{Int64, int64_mod}

digit : ℕ → ℕ
digit d = 48 + d

-- The fuel bounds the number of digits; `n + 1` is always enough.
decimal_fuel : ℕ → ℕ → Text
unfolding digit
decimal_fuel zero n = []
decimal_fuel (suc f) n =
    let front = decimal_fuel f (n / 10) in
    if ltb n 10 then digit n ∷ [] else front ++ digit (n % 10) ∷ []

pub decimal : ℕ → Text
unfolding decimal_fuel
decimal n = decimal_fuel (suc n) n

-- `strconv.FormatInt(x, 10)` of an int64.
pub format_int : Int64 → Text
unfolding decimal
format_int x =
    if ltb x 0x8000_0000_0000_0000 then decimal x else codes "-" ++ decimal (int64_mod - x)

value_from : ℕ → Text → ℕ
value_from acc [] = acc
value_from acc (c ∷ s) = value_from (acc * 10 + (c - 48)) s

digits_value : Text → ℕ
unfolding value_from
digits_value s = value_from 0 s

abbrev is_digit : ℕ → Bool
is_digit c = leb 48 c && leb c 57

all_digits : Text → Bool
all_digits [] = true
all_digits (c ∷ s) = is_digit c && all_digits s

-- The digits after the sign: at least one, and a value of at most `max`.
parse_digits : ℕ → Text → Option ℕ
unfolding all_digits digits_value
parse_digits max [] = none
parse_digits max (c ∷ s) =
    if all_digits (c ∷ s) && leb (digits_value (c ∷ s)) max
    then some (digits_value (c ∷ s))
    else none

negate : ℕ → Int64
negate n = (int64_mod - n) % int64_mod

-- `strconv.ParseInt(s, 10, 64)`; `none` is a syntax or a range error.
unfoldable pub parse_int : Text → Option Int64
unfolding parse_digits negate
parse_int [] = none
parse_int (c ∷ s) =
    if c == b'-'
    then Option.map negate (parse_digits 0x8000_0000_0000_0000 s)
    else if c == b'+'
    then parse_digits 0x7fff_ffff_ffff_ffff s
    else parse_digits 0x7fff_ffff_ffff_ffff (c ∷ s)

value_from-append :
    (acc c : ℕ) (s : Text) → value_from acc (s ++ c ∷ []) ≡ value_from acc s * 10 + (c - 48)
unfolding value_from
value_from-append acc c [] = refl
value_from-append acc c (d ∷ s) = value_from-append (acc * 10 + (d - 48)) c s

value_from-decimal_fuel : (f n : ℕ) → n < f → value_from 0 (decimal_fuel f n) ≡ n
unfolding decimal_fuel digit
value_from-decimal_fuel zero n h = elim h [ ]
value_from-decimal_fuel (suc f) n h = elim (Bool-cases (ltb n 10)) [
  | inl small ↦ rw small (unfold value_from in omega arith)
  | inr large ↦
      rw (large, value_from-append 0 (48 + n % 10) (decimal_fuel f (n / 10)))
        (omega (arith, value_from-decimal_fuel f (n / 10) (ground arith)))
]

-- The text of a number reads back as the number.
digits_value-decimal : (n : ℕ) → digits_value (decimal n) ≡ n
unfolding decimal digits_value
digits_value-decimal n = value_from-decimal_fuel (suc n) n (omega arith)

pub decimal-injective : (m n : ℕ) → decimal m ≡ decimal n → m ≡ n
decimal-injective m n h = sym (digits_value-decimal m) ∙ ap digits_value h ∙ digits_value-decimal n
