-- ===== src/Storage/Mem/Order.antt =====
-- The order of a batch does not matter to the counters.
use mathlib.Core.List.{Perm, Permᴰ}
use mathlib.Core.List.Perm
use mathlib.Core.Logic.{∥∥₁_elim}
use go_musthave_metrics.Base.{ℕ, ◌≡◌, refl, ◌∙◌, Option, List, [], ◌∷◌, arith, length}
use go_musthave_metrics.Base.Text.{Text}
use go_musthave_metrics.Base.Words.{Int64}
use go_musthave_metrics.Model.{Metrics}
use go_musthave_metrics.Storage.Mem.{MemStorage, update_metrics, get_counter}
use go_musthave_metrics.Storage.Mem.Batch.{
  delta_for, sum, counted, IsInt64Batch, update_metrics-counter,
}

sum-perm : {xs ys : List ℕ} → Permᴰ xs ys → (sum xs ≡ sum ys) × (length xs ≡ length ys)
sum-perm Permᴰ.nil = (refl, refl)
sum-perm (Permᴰ.cons e p) = let (s, l) = sum-perm p in (omega arith, omega arith)
sum-perm (Permᴰ.swap e f) = (omega arith, omega arith)
sum-perm (Permᴰ.trans p q) =
    let (s, l) = sum-perm p in let (s', l') = sum-perm q in (s ∙ s', l ∙ l')

counted-eq :
    (old : Option Int64) (xs ys : List ℕ)
    → (sum xs ≡ sum ys) × (length xs ≡ length ys)
    → counted old xs ≡ counted old ys
counted-eq old [] [] h = refl
counted-eq old [] (y ∷ ys) h = absurd (omega arith)
counted-eq old (x ∷ xs) [] h = absurd (omega arith)
counted-eq old (x ∷ xs) (y ∷ ys) h = ground arith

module _ {F : Type 0} where
  -- Two batches of int64 deltas that hold the same metrics in another order leave every counter with
  -- the same value.
  pub update_metrics-perm :
      (m : MemStorage F) (name : Text) (xs ys : List (Metrics F))
      → Perm xs ys
      → IsInt64Batch xs
      → IsInt64Batch ys
      → get_counter (update_metrics m xs) name ≡ get_counter (update_metrics m ys) name
  update_metrics-perm m name xs ys p hx hy =
      rw (update_metrics-counter m name xs hx, update_metrics-counter m name ys hy)
        (∥∥₁_elim (Perm.filter_map (delta_for name) p) (hlevel)
          λ q. counted-eq (get_counter m name) _ _ (sum-perm q))
