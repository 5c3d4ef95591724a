-- ===== src/Storage/Mem/Life/Saves.antt =====
-- When the goroutine that saves can crash.
use go_musthave_metrics.Base.{
  ◌≡◌, ◌≢◌, refl, sym, ap, ◌∙◌, ◌⊎◌, inl, inr, true, false, List, [], ◌∷◌, ◌++◌, arith,
}
use go_musthave_metrics.Storage.Mem.Life.{
  Saver, looping, saving, crashed, Life, start_periodic_save, Turn, enters, crashes, ticks, quits,
  saves, Step, starts, closes, turns, Reach, here, next,
}

-- The states before `Close`: no goroutine, or one that runs.
pub data Phase {F : Type 0} (l : Life F) : Type 0 where
  idle : l.ticker ≡ false → l.savers ≡ [] → Phase l
  running : (p : Saver) → l.ticker ≡ true → l.savers ≡ p ∷ [] → p ≢ crashed → Phase l
  closed : l.done ≡ true → Phase l

single :
    {A : Type 0} (before after : List A) (p q : A)
    → before ++ p ∷ after ≡ q ∷ []
    → (p ≡ q) × (before ≡ []) × (after ≡ [])
single [] after p q e = (cc, refl, cc)
single (b ∷ []) after p q e = absurd (cc)
single (b ∷ c ∷ bs) after p q e = absurd (cc)

append-ne-nil : {A : Type 0} (before after : List A) (p : A) → before ++ p ∷ after ≢ []
append-ne-nil [] after p e = cc
append-ne-nil (b ∷ bs) after p e = cc

module _ {F : Type 0} where
  Turn-running : {l : Life F} {p q : Saver} → l.ticker ≡ true → Turn l p q → q ≢ crashed
  Turn-running t (enters e) h = cc
  Turn-running t (crashes e) h = cc
  Turn-running t ticks h = cc
  Turn-running t (quits e) h = cc
  Turn-running t saves h = cc

  start-Phase : (l : Life F) → Phase l → Phase (start_periodic_save l)
  unfolding start_periodic_save
  start-Phase l (idle ti em) = simp ti (running looping refl (ap (◌∷◌ looping) em) (λ h. cc))
  start-Phase l (running p ti em ok) = simp ti (running p ti em ok)
  start-Phase l (closed d) = closed (ground arith)

  Step-Phase : {l u : Life F} → Step l u → Phase l → Phase u
  Step-Phase {l} starts ph = start-Phase l ph
  Step-Phase closes ph = closed refl
  Step-Phase (turns before after {p} {q} e t) (idle ti em) =
      absurd (append-ne-nil before after p (sym e ∙ em))
  Step-Phase (turns before after {p} {q} e t) (running p' ti em ok) =
      let (same, none_before, none_after) = single before after p p' (sym e ∙ em) in
      running q ti (rw (none_before, none_after)) (Turn-running ti t)
  Step-Phase (turns before after e t) (closed d) = closed d

  Reach-Phase : {l u : Life F} → Phase l → Reach l u → Phase u
  Reach-Phase ph here = ph
  Reach-Phase ph (next r st) = Step-Phase st (Reach-Phase ph r)

  -- From a storage without a ticker and a goroutine, and as long as `Close` has not run, at most
  -- one goroutine saves, and it has not crashed.
  pub saver_safe_until_close :
      {l u : Life F}
      → l.ticker ≡ false
      → l.savers ≡ []
      → Reach l u
      → u.done ≡ false
      → (u.savers ≡ []) ⊎ ((p : Saver) × (u.savers ≡ p ∷ []) × (p ≢ crashed))
  saver_safe_until_close ti em r d = elim (Reach-Phase (idle ti em) r) [
    | idle ti' em' ↦ inl em'
    | running p ti' em' ok ↦ inr (p, em', ok)
    | closed d' ↦ absurd (cc)
  ]

  -- A `Close` while a goroutine writes the file can be followed by the crash of that goroutine: it
  -- comes back to its loop and reads `m.ticker.C` of a nil ticker.
  pub close_crashes_saver :
      (l : Life F) (before after : List Saver)
      → l.savers ≡ before ++ saving ∷ after
      → Reach l (record l { ticker = false; done = true; savers = before ++ crashed ∷ after })
  close_crashes_saver l before after e =
      next (next (next here closes) (turns before after e saves))
        (turns before after refl (crashes refl))
