-- ===== src/Server/Run/Closes.antt =====
-- That a server which ran has closed what it had opened.
use go_musthave_metrics.Base.{
  ◌≡◌, ◌≢◌, ◌⊎◌, ◌∙◌, ap, false, if◌then◌else◌, refl, Option, none, List, [], ◌∷◌, map, inl, inr,
}
use go_musthave_metrics.Base.Text.{Text}
use go_musthave_metrics.Base.Results.{Error, Result, ok}
use go_musthave_metrics.Config.{ServerFlags}
use go_musthave_metrics.Retry.{Duration}
use go_musthave_metrics.Storage.Mem.Files.{Outside}
use go_musthave_metrics.Observers.File.{Disk}
use go_musthave_metrics.Server.Database.{Pgx, Migrate}
use go_musthave_metrics.Server.Startup.{
  StorageChoice, memory, nil_storage, database, Resource, storage_resource, Dependencies,
  init_dependencies,
}
use go_musthave_metrics.Server.Startup.Closed.{held, kinds, wanted, init_dependencies-held}
use go_musthave_metrics.Server.Shutdown.{
  Closer, HttpServer, close_resources, before_close, wait_for_shutdown,
}
use go_musthave_metrics.Server.Run.{Ran, returns, panics, is_nil, run, router_error}

-- `Close` of each, in their order, whatever it returns.
abbrev pub close_each : {W : Type 0} → List (Closer W) → W → W
close_each [] w = w
close_each (close ∷ closers) w = close_each closers (close w).1

close_resources-close_each :
    {W : Type 0} (cs : List (Closer W)) (w : W) → (close_resources cs w).1 ≡ close_each cs w
unfolding close_resources
close_resources-close_each [] w = refl
close_resources-close_each (c ∷ cs) w = close_resources-close_each cs (c w).1

is_nil-cases :
    {Pool : Type 0} (st : StorageChoice Pool)
    → ((st ≢ nil_storage) × (is_nil st ≡ false)) ⊎ (st ≡ nil_storage)
unfolding is_nil
is_nil-cases memory = inl ((λ h. cc), refl)
is_nil-cases nil_storage = inr refl
is_nil-cases (database pool delays) = inl ((λ h. cc), refl)

module _ {F Pool File W : Type 0} (pgx : Pgx Pool W) (migrate : Migrate W) (disk : Disk File W)
    (files : Outside F) (saved : W → files.Disk) (parse_duration : Text → Result Duration)
    (template : Option Error) (serves : Dependencies Pool File → W → W) (server : HttpServer W)
    (close : Resource Pool File → Closer W) where
  -- The state in which the loop over the resources begins: the server is shut down and the active
  -- requests were waited for.
  abbrev pub at_close : W → W
  at_close w = (server.wait_for_requests (server.shutdown (server.close_shutdown_channel w)).1).1

  abbrev Ran_of : ServerFlags → W → Ran × W
  Ran_of = run pgx migrate disk files saved parse_duration template serves server close

  abbrev started : ServerFlags → W → Result (Dependencies Pool File) × W
  started = init_dependencies pgx migrate disk files saved parse_duration

  run-stops :
      (cfg : ServerFlags) (w : W) (d : Dependencies Pool File)
      → (started cfg w).0 ≡ ok d
      → template ≡ none
      → Ran_of cfg w ≡ (
          let w2 = serves d (started cfg w).1 in
          if is_nil d.storage
          then (panics, at_close w2)
          else (returns none, (close_resources (map close d.resources) (at_close w2)).1))
  unfolding run router_error wait_for_shutdown before_close
  run-stops cfg w d e t = rw (e, run, t, router_error) refl

  -- A server whose dependencies and router can be made has one observer for each that the flags ask
  -- for. Unless its storage is nil, `Run` returns nil after it has called `Close` of the storage
  -- and then of what the observers hold, each once and in this order, whatever the shutdown of the
  -- HTTP server and these calls returned; with a nil storage it panics before any of them.
  pub run-closes :
      (cfg : ServerFlags) (w : W) (d : Dependencies Pool File)
      → (init_dependencies pgx migrate disk files saved parse_duration cfg w).0 ≡ ok d
      → template ≡ none
      → let result =
          run pgx migrate disk files saved parse_duration template serves server close cfg w in
        let w1 =
          at_close
            (serves d (init_dependencies pgx migrate disk files saved parse_duration cfg w).1) in
        (kinds d.subject.observers ≡ wanted cfg)
        × (((d.storage ≢ nil_storage)
              × (result ≡ (
                returns none,
                close_each (map close (storage_resource d.storage ∷ held d.subject.observers)) w1,
              )))
            ⊎ ((d.storage ≡ nil_storage) × (result ≡ (panics, w1))))
  unfolding is_nil
  run-closes cfg w d e t =
      let (resources, observed, _) =
        init_dependencies-held pgx migrate disk files saved parse_duration cfg d w e in
      (
        observed,
        elim (is_nil-cases d.storage) [
          | inr n ↦ inr (n, run-stops cfg w d e t ∙ rw n refl)
          | inl (n, f) ↦ inl (
            n,
            run-stops cfg w d e t
                ∙ rw f (
                    ap (λ u. (returns none, u))
                      (close_resources-close_each (map close d.resources) _
                        ∙ ap
                            (λ rs.
                              close_each (map close rs) (at_close (serves d (started cfg w).1)))
                            resources)),
          )
        ],
      )
