-- ===== src/Server/Shutdown.antt =====
-- `waitForShutdown` of internal/server/server.go from the signal on, and
-- internal/server/resource_group.go. A resource is its `Close`, a step of a state `W`.
use go_musthave_metrics.Base.{
  ◌≡◌, refl, ap, ◌⊎◌, inl, inr, Bool, Option, none, some, List, [], ◌∷◌, ◌++◌, arith, Option-cases,
}
use go_musthave_metrics.Base.Results.{Error}

abbrev pub Closer : Type 0 → Type 0
Closer W = W → Option Error × W

-- `http.Server.Shutdown`, and the select on the active requests: `true` when they are done.
pub record HttpServer (W : Type 0) : Type 0 where
  pub close_shutdown_channel : W → W
  pub shutdown : W → Option Error × W
  pub wait_for_requests : W → Bool × W

module _ {W : Type 0} where
  -- The loop over the resources, with the errors that it logs.
  unfoldable pub close_resources : List (Closer W) → W → List Error × W
  close_resources [] w = ([], w)
  close_resources (close ∷ resources) w =
      let (e, w1) = close w in
      let (es, w2) = close_resources resources w1 in (elim e [ none ↦ es | some x ↦ x ∷ es ], w2)

  -- The part before that loop.
  unfoldable pub before_close : HttpServer W → W → Option Error × W
  before_close server w =
      let (e, w1) = server.shutdown (server.close_shutdown_channel w) in
      let (done, w2) = server.wait_for_requests w1 in (e, w2)

  -- What it logs as errors; it returns nil.
  unfoldable pub wait_for_shutdown : HttpServer W → List (Closer W) → W → List Error × W
  unfolding close_resources before_close
  wait_for_shutdown server resources w =
      let (e, w2) = before_close server w in
      let (es, w3) = close_resources resources w2 in (elim e [ none ↦ es | some x ↦ x ∷ es ], w3)

  -- `ResourceGroup`: `Register` and `CloseAll`.
  unfoldable pub register : List (Closer W) → Closer W → List (Closer W)
  register closers c = closers ++ c ∷ []

  unfoldable close_all : List (Closer W) → W → Option Error × W
  close_all [] w = (none, w)
  close_all (closer ∷ closers) w =
      let (e, w1) = closer w in
      let rest = close_all closers w1 in elim e [ some x ↦ (some x, w1) | none ↦ rest ]

  -- The first closer that fails, after closers that did not.
  abbrev Stopped : List (Closer W) → W → Type 0
  Stopped cs w =
      (before : List (Closer W)) × (c : Closer W) × (after : List (Closer W)) × (e : Error)
      × (w0 : W) × (cs ≡ before ++ c ∷ after)
      × (close_resources before w ≡ ([], w0))
      × (c w0 ≡ (some e, (close_all cs w).1))
      × ((close_all cs w).0 ≡ some e)

  -- A group of resources is closed like the loop of the shutdown closes them when none of them
  -- fails; otherwise it stops at the first that does, with its error, and closes none after it.
  close_all-cases :
      (cs : List (Closer W)) (w : W)
      → ((close_all cs w ≡ (none, (close_resources cs w).1)) × ((close_resources cs w).0 ≡ []))
        ⊎ Stopped cs w
  unfolding close_all close_resources
  close_all-cases [] w = inl (refl, refl)
  close_all-cases (c ∷ cs) w = elim (Option-cases (c w).0) [
    | inl e ↦ elim (close_all-cases cs (c w).1) [
      | inl (p, q) ↦ inl (ground (arith, e, p, q))
      | inr (before, d, after, x, w0, split, closed, fails, stops) ↦ inr (
        c ∷ before,
        d,
        after,
        x,
        w0,
        ap (λ ds. c ∷ ds) split,
        ground arith,
        ground arith,
        ground arith,
      )
    ]
    | inr (x, e) ↦ inr ([], c, cs, x, w, refl, refl, ground arith, ground arith)
  ]
