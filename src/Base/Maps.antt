-- ===== src/Base/Maps.antt =====
-- A Go `map[string]V` as an association list. Go leaves the order of a `range` open, so what a loop
-- over a map visits is any list that holds each key once with its value.
use mathlib.Core.Path.{◌≡◌, refl}
use mathlib.Core.List.{List, [], ◌∷◌}
use mathlib.Core.Option.{Option, none, some}
use native.Mathlib.Omega.{arith}
use go_musthave_metrics.Base.Tests.{if◌then◌else◌}
use go_musthave_metrics.Base.Text.{Text, str_eq, str_eq_iff}

abbrev pub GoMap {ℓ} : Type ℓ → Type ℓ
GoMap V = List (Text × V)

module _ {ℓ} {V : Type ℓ} where
  -- `v, ok := m[k]`
  unfoldable pub lookup : Text → GoMap V → Option V
  lookup k [] = none
  lookup k ((j, v) ∷ m) = if str_eq j k then some v else lookup k m

  -- `m[k] = v`
  unfoldable pub insert : Text → V → GoMap V → GoMap V
  insert k v [] = (k, v) ∷ []
  insert k v ((j, w) ∷ m) = if str_eq j k then (k, v) ∷ m else (j, w) ∷ insert k v m

  pub lookup-insert :
      (k j : Text) (v : V) (m : GoMap V)
      → lookup j (insert k v m) ≡ (if str_eq k j then some v else lookup j m)
  unfolding lookup insert
  lookup-insert k j v [] = refl
  lookup-insert k j v ((i, w) ∷ m) =
      ground (arith, str_eq_iff k j, str_eq_iff i k, str_eq_iff i j, lookup-insert k j v m)

  -- No key is listed twice.
  abbrev pub IsUnique : GoMap V → Type ℓ
  IsUnique [] = Unit
  IsUnique ((k, v) ∷ m) = (lookup k m ≡ none) × IsUnique m

  pub insert-IsUnique : (k : Text) (v : V) (m : GoMap V) → IsUnique m → IsUnique (insert k v m)
  unfolding lookup insert
  insert-IsUnique k v [] u = (refl, tt)
  insert-IsUnique k v ((j, w) ∷ m) u =
      ground
        (arith, str_eq_iff j k, str_eq_iff k j, lookup-insert k j v m, insert-IsUnique k v m u.1)

-- What `for k, v := range m` visits.
pub record Ranges {ℓ} {V : Type ℓ} (es : GoMap V) (m : GoMap V) : Type ℓ where
  pub once : IsUnique es
  pub same : (k : Text) → lookup k es ≡ lookup k m

module _ {ℓ} {V : Type ℓ} where
  pub Ranges-self : (m : GoMap V) → IsUnique m → Ranges m m
  Ranges-self m u = record { once = u; same = λ k. refl }
