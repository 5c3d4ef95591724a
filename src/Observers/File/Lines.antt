-- ===== src/Observers/File/Lines.antt =====
-- What the audit file holds.
use go_musthave_metrics.Base.{
  ◌≡◌, refl, ap, sym, ◌∙◌, none, some, inl, inr, List, [], ◌∷◌, ◌++◌, arith,
}
use go_musthave_metrics.Base.Text.{Text, codes}
use go_musthave_metrics.Base.Results.{Result, ok, err, Result-cases}
use go_musthave_metrics.Observers.File.{Disk, FileObserver, on_metric_processed, close_observer}
use mathlib.Core.List.{append-nil, append_assoc}

module _ {File W Event : Type 0} (disk : Disk File W) (marshal : Event → Result Text)
    (content : W → Text) where
  -- A write appends its bytes, and closing leaves them.
  pub record Appends : Type 0 where
    pub appended : (f : File) (t : Text) (w : W) → content (disk.write f t w).1 ≡ content w ++ t
    pub synced : (f : File) (w : W) → content (disk.sync f w).1 ≡ content w
    pub closed : (f : File) (w : W) → content (disk.close f w).1 ≡ content w

  -- The observer on events one after the other.
  unfoldable pub process : FileObserver File → List Event → W → W
  process o [] w = w
  process o (e ∷ es) w = process o es (on_metric_processed disk marshal o e w)

  -- A line for each event that can be marshalled.
  pub audit_lines : List Event → Text
  audit_lines [] = []
  audit_lines (e ∷ es) =
      let rest = audit_lines es in
      elim (marshal e) [ err x ↦ rest | ok t ↦ t ++ (codes "\n" ++ rest) ]

  lines_of : Event → Text
  lines_of e = elim (marshal e) [ err x ↦ [] | ok t ↦ t ++ codes "\n" ]

  audit_lines-cons :
      (e : Event) (es : List Event) → audit_lines (e ∷ es) ≡ lines_of e ++ audit_lines es
  unfolding audit_lines lines_of
  audit_lines-cons e es = elim (Result-cases (marshal e)) [
    | inl (t, p) ↦ ground (arith, append_assoc t (codes "\n") (audit_lines es))
    | inr (x, p) ↦ ground arith
  ]

  on_metric_processed-appends :
      Appends
      → (o : FileObserver File) (f : File) (e : Event) (w : W) → o.file ≡ some f
      → content (on_metric_processed disk marshal o e w) ≡ content w ++ lines_of e
  unfolding on_metric_processed lines_of
  on_metric_processed-appends h o f e w p = elim (Result-cases (marshal e)) [
    | inl (t, q) ↦ ground (arith, h.appended f (t ++ codes "\n") w)
    | inr (x, q) ↦ ground (arith, append-nil (content w))
  ]

  process-lines :
      Appends
      → (o : FileObserver File) (f : File) (es : List Event) (w : W) → o.file ≡ some f
      → content (process o es w) ≡ content w ++ audit_lines es
  unfolding process audit_lines
  process-lines h o f [] w p = sym (append-nil (content w))
  process-lines h o f (e ∷ es) w p =
      process-lines h o f es (on_metric_processed disk marshal o e w) p
      ∙ ap (λ t. t ++ audit_lines es) (on_metric_processed-appends h o f e w p)
      ∙ append_assoc (content w) (lines_of e) (audit_lines es)
      ∙ ap (λ t. content w ++ t) (sym (audit_lines-cons e es))

  closed : FileObserver File → FileObserver File
  closed o = record o { file = none }

  close_observer-closed :
      (o o' : FileObserver File) (f : File) (w w' : W)
      → o.file ≡ some f
      → close_observer disk o w ≡ (none, (o', w'))
      → (o' ≡ closed o) × (w' ≡ (disk.close f (disk.sync f w).1).1)
  unfolding close_observer closed
  close_observer-closed o o' f w w' p c = ground (arith, p, c)

  closed-process : (o : FileObserver File) (es : List Event) (w : W) → process (closed o) es w ≡ w
  unfolding process on_metric_processed closed
  closed-process o [] w = refl
  closed-process o (e ∷ es) w = elim (Result-cases (marshal e)) [
    | inl (t, q) ↦ ground (arith, closed-process o es w)
    | inr (x, q) ↦ ground (arith, closed-process o es w)
  ]

  closed-close :
      (o : FileObserver File) (w : W) → close_observer disk (closed o) w ≡ (none, (closed o, w))
  unfolding close_observer closed
  closed-close o w = refl

  -- Over a disk on which a write appends its bytes and closing leaves them, an open observer
  -- appends one line to its file for each event that can be marshalled, in the order in which it
  -- takes them. Once it is closed without an error, the file holds these lines, and no event and no
  -- further close changes the disk.
  pub close-process :
      Appends
      → (o o' : FileObserver File) (f : File) (es later : List Event) (w w' : W) → o.file ≡ some f
      → close_observer disk o (process o es w) ≡ (none, (o', w'))
      → (content w' ≡ content w ++ audit_lines es)
        × (process o' later w' ≡ w')
        × (close_observer disk o' w' ≡ (none, (o', w')))
  close-process h o o' f es later w w' p c =
      let (eo, ew) = close_observer-closed o o' f (process o es w) w' p c in
      (
        ap content ew
            ∙ h.closed f (disk.sync f (process o es w)).1
            ∙ h.synced f (process o es w)
            ∙ process-lines h o f es w p,
        rw eo (closed-process o later w'),
        rw eo (closed-close o w'),
      )
