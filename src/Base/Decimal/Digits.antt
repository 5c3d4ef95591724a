-- ===== src/Base/Decimal/Digits.antt =====
-- What a printed number cannot contain.
use Prim.Native.Nat.{ℕ, zero, suc, ◌/◌, ◌%◌, ◌<◌}
use mathlib.Core.Path.{◌≡◌, refl}
use mathlib.Core.Bool.{Bool, true, false, ◌&&◌, not}
use mathlib.Core.List.{[], ◌∷◌, ◌++◌}
use native.Mathlib.Omega.{arith}
use go_musthave_metrics.Base.Tests.{◌==◌}
use go_musthave_metrics.Base.Text.{Text, contains, has_prefix}
use go_musthave_metrics.Base.Decimal.{decimal, decimal_fuel, digit}

-- The byte `x` does not occur.
unfoldable pub lacks : ℕ → Text → Bool
lacks x [] = true
lacks x (c ∷ s) = not (c == x) && lacks x s

pub lacks-append :
    (x : ℕ) (s t : Text) → lacks x s ≡ true → lacks x t ≡ true → lacks x (s ++ t) ≡ true
unfolding lacks
lacks-append x [] t h k = k
lacks-append x (c ∷ s) t h k = ground (arith, lacks-append x s t)

has_prefix-lacks :
    (x : ℕ) (s p : Text) → lacks x s ≡ true → lacks x p ≡ false → has_prefix s p ≡ false
unfolding has_prefix lacks
has_prefix-lacks x s [] h k = absurd (cc)
has_prefix-lacks x [] (b ∷ p) h k = refl
has_prefix-lacks x (a ∷ s) (b ∷ p) h k = ground (arith, has_prefix-lacks x s p)

-- A text without a byte contains nothing that has it.
pub contains-lacks :
    (x : ℕ) (s sub : Text) → lacks x s ≡ true → lacks x sub ≡ false → contains s sub ≡ false
unfolding contains lacks
contains-lacks x [] sub h k = has_prefix-lacks x [] sub h k
contains-lacks x (a ∷ s) sub h k =
    ground (arith, has_prefix-lacks x (a ∷ s) sub h k, contains-lacks x s sub)

decimal_fuel-lacks : (x f n : ℕ) → 57 < x → lacks x (decimal_fuel f n) ≡ true
unfolding decimal_fuel digit lacks
decimal_fuel-lacks x zero n h = refl
decimal_fuel-lacks x (suc f) n h = ground (
  arith,
  decimal_fuel-lacks x f (n / 10) h,
  lacks-append x (decimal_fuel f (n / 10)) (digit (n % 10) ∷ []),
)

-- A printed number has no letter.
pub decimal-lacks : (x n : ℕ) → 57 < x → lacks x (decimal n) ≡ true
unfolding decimal
decimal-lacks x n h = decimal_fuel-lacks x (suc n) n h
