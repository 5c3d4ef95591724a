-- ===== src/ObjPool.antt =====
-- pkg/objpool/pool.go, over the documented behaviour of sync.Pool: `Get` takes any object of the pool
-- or makes a new one, and an object of the pool may be dropped at any time. An object is an address.
pub mod Owned
use go_musthave_metrics.Base.{ℕ, ◌+◌, ◌≡◌, ◌==◌, List, [], ◌∷◌, ◌++◌, if◌then◌else◌}

-- `held` are the addresses that callers have got and not put back; `fresh` is the next new address.
pub record Pool (T : Type 0) : Type 0 where
  pub free : List ℕ
  pub held : List ℕ
  pub objects : ℕ → T
  pub fresh : ℕ

abbrev pub store : {T : Type 0} → (ℕ → T) → ℕ → T → ℕ → T
store f i t j = if i == j then t else f j

-- `New`; `make` is its argument.
unfoldable pub new : {T : Type 0} → T → Pool T
new t = record { free = []; held = []; objects = λ i. t; fresh = 0 }

module _ {T : Type 0} (make : T) (reset : T → T) where
  -- `Get` returns the object at an address.
  pub data Got (p : Pool T) : ℕ → Pool T → Type 0 where
    made : Got p p.fresh (record p {
      held = p.fresh ∷ p.held;
      objects = store p.objects p.fresh make;
      fresh = p.fresh + 1;
    })
    reused :
        (before : List ℕ) (i : ℕ) (after : List ℕ)
        → p.free ≡ before ++ i ∷ after
        → Got p i (record p { free = before ++ after; held = i ∷ p.held })

  pub data Step (p : Pool T) : Pool T → Type 0 where
    gets : {i : ℕ} {q : Pool T} → Got p i q → Step p q
    -- a caller writes to an object that it holds
    writes :
        (before : List ℕ) (i : ℕ) (after : List ℕ) (t : T)
        → p.held ≡ before ++ i ∷ after
        → Step p (record p { objects = store p.objects i t })
    -- `Put` resets the object first
    puts :
        (before : List ℕ) (i : ℕ) (after : List ℕ)
        → p.held ≡ before ++ i ∷ after
        → Step p (record p {
          free = i ∷ p.free;
          held = before ++ after;
          objects = store p.objects i (reset (p.objects i));
        })
    drops :
        (before : List ℕ) (i : ℕ) (after : List ℕ)
        → p.free ≡ before ++ i ∷ after
        → Step p (record p { free = before ++ after })

  pub data Reach (p : Pool T) : Pool T → Type 0 where
    here : Reach p p
    next : {q r : Pool T} → Reach p q → Step q r → Reach p r
