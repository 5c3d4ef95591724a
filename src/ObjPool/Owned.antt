-- ===== src/ObjPool/Owned.antt =====
-- Who holds which object.
use go_musthave_metrics.Base.{
  ℕ, ◌+◌, ◌≤◌, ◌<◌, ◌≡◌, refl, ap, true, ◌∙◌, ◌==◌, List, [], ◌∷◌, ◌++◌, if◌then◌else◌, if_both,
  Bool-cases, inl, inr, arith,
}
use go_musthave_metrics.ObjPool.{
  Pool, new, Got, made, reused, Step, gets, writes, puts, drops, Reach, here, next,
}

abbrev pub count : ℕ → List ℕ → ℕ
count i [] = 0
count i (j ∷ js) = (if i == j then 1 else 0) + count i js

count-append : (i : ℕ) (xs ys : List ℕ) → count i (xs ++ ys) ≡ count i xs + count i ys
count-append i [] ys = omega arith
count-append i (x ∷ xs) ys = omega (arith, count-append i xs ys)

-- The count of `i` in a list that another address is taken out of.
count-taken :
    (j : ℕ) {xs : List ℕ} (before : List ℕ) (i : ℕ) (after : List ℕ)
    → xs ≡ before ++ i ∷ after
    → count j xs ≡ (if j == i then 1 else 0) + count j (before ++ after)
count-taken j before i after e =
    ap (count j) e ∙ omega (arith, count-append j before (i ∷ after), count-append j before after)

same : (n : ℕ) → (n == n) ≡ true
same n = ground arith

module _ {T : Type 0} (make : T) (reset : T → T) (IsClean : T → Type 0) where
  record IsOwned (p : Pool T) : Type 0 where
    once : (i : ℕ) → count i p.free + count i p.held ≤ 1
    known : (i : ℕ) → p.fresh ≤ i → count i p.free + count i p.held ≡ 0
    clean : (i : ℕ) → 0 < count i p.free → IsClean (p.objects i)

  module _ (make_clean : IsClean make) (reset_clean : (t : T) → IsClean (reset t)) where
    Got-IsOwned : {p q : Pool T} {i : ℕ} → Got make reset p i q → IsOwned p → IsOwned q
    Got-IsOwned {p} made o = record {
      once = λ j. ground (arith, o.once j, o.known j);
      known = λ j h. ground (arith, o.known j);
      clean = λ j h. if_both IsClean (p.fresh == j) make_clean (o.clean j h);
    }
    Got-IsOwned {p} (reused before i after e) o = record {
      once = λ j. ground (arith, o.once j, count-taken j before i after e);
      known = λ j h. ground (arith, o.known j h, count-taken j before i after e);
      clean = λ j h. o.clean j (ground (arith, count-taken j before i after e));
    }

    Step-IsOwned : {p q : Pool T} → Step make reset p q → IsOwned p → IsOwned q
    Step-IsOwned (gets g) o = Got-IsOwned g o
    Step-IsOwned {p} (writes before i after t e) o = record {
      once = o.once;
      known = o.known;
      clean = λ j h. elim (Bool-cases (i == j)) [
        | inl equal ↦ absurd (ground (arith, o.once j, count-taken j before i after e, equal, h))
        | inr other ↦ rw other (o.clean j h)
      ];
    }
    Step-IsOwned {p} (puts before i after e) o = record {
      once = λ j. ground (arith, o.once j, count-taken j before i after e);
      known = λ j h. ground (arith, o.known j h, count-taken j before i after e);
      clean = λ j h. elim (Bool-cases (i == j)) [
        | inl equal ↦ rw equal (reset_clean (p.objects i))
        | inr other ↦ rw other (o.clean j (ground (arith, h, other)))
      ];
    }
    Step-IsOwned {p} (drops before i after e) o = record {
      once = λ j. ground (arith, o.once j, count-taken j before i after e);
      known = λ j h. ground (arith, o.known j h, count-taken j before i after e);
      clean = λ j h. o.clean j (ground (arith, count-taken j before i after e));
    }

    Reach-IsOwned : {p q : Pool T} → IsOwned p → Reach make reset p q → IsOwned q
    Reach-IsOwned o here = o
    Reach-IsOwned o (next r s) = Step-IsOwned s (Reach-IsOwned o r)

    new-IsOwned : (t : T) → IsOwned (new t)
    unfolding new
    new-IsOwned t = record {
      once = λ i. omega arith;
      known = λ i h. refl;
      clean = λ i h. absurd (omega arith);
    }

    -- Where new and reset objects are clean, and callers write only to objects that they hold and put
    -- back each object once: whatever the callers did before, an object that `Get` returns is clean,
    -- and no other caller holds it.
    pub clean_and_alone :
        (t : T) {p q : Pool T} {i : ℕ}
        → Reach make reset (new t) p
        → Got make reset p i q
        → IsClean (q.objects i) × (count i p.held ≡ 0) × (count i q.held ≡ 1) × (count i q.free ≡ 0)
    clean_and_alone t {p} r made =
        let o = Reach-IsOwned (new-IsOwned t) r in
        (
          rw (same p.fresh) make_clean,
          omega (arith, o.known p.fresh (omega arith)),
          ground (arith, o.known p.fresh (omega arith)),
          omega (arith, o.known p.fresh (omega arith)),
        )
    clean_and_alone t {p} r (reused before i after e) =
        let o = Reach-IsOwned (new-IsOwned t) r in
        (
          o.clean i (ground (arith, count-taken i before i after e)),
          ground (arith, o.once i, count-taken i before i after e),
          ground (arith, o.once i, count-taken i before i after e),
          ground (arith, o.once i, count-taken i before i after e),
        )
