-- ===== src/Model/Memory/Keys.antt =====
-- The names under which `ToMap` files the processors.
use go_musthave_metrics.Base.{
  ℕ, zero, suc, ◌+◌, ◌<◌, ◌≡◌, ◌≢◌, refl, sym, ap, ◌∙◌, none, some, List, [], ◌∷◌, arith, get_elem?,
}
use go_musthave_metrics.Base.Text.{str_eq, str_eq_refl, str_eq-false}
use go_musthave_metrics.Base.Maps.{GoMap, lookup, insert, lookup-insert, IsUnique, insert-IsUnique}
use go_musthave_metrics.Base.Decimal.{decimal-injective}
use go_musthave_metrics.Model.Memory.{MemoryMetrics, cpu_key, float_entries, add_cpus, to_map}

cpu_key-injective : (m n : ℕ) → cpu_key m ≡ cpu_key n → m ≡ n
unfolding cpu_key
cpu_key-injective m n e = decimal-injective m n (ground (arith, e))

module _ {F : Type 0} where
  insert_other :
      (i k : ℕ) (u : F) (m : GoMap F)
      → i ≢ k
      → lookup (cpu_key k) (insert (cpu_key i) u m) ≡ lookup (cpu_key k) m
  insert_other i k u m h =
      rw (lookup-insert (cpu_key i) (cpu_key k) u m)
        (rw (str_eq-false (cpu_key i) (cpu_key k) (λ e. h (cpu_key-injective i k e))))

  insert_same : (k : ℕ) (u : F) (m : GoMap F) → lookup (cpu_key k) (insert (cpu_key k) u m) ≡ some u
  insert_same k u m = rw (lookup-insert (cpu_key k) (cpu_key k) u m) (rw (str_eq_refl (cpu_key k)))

  -- Processors after the one asked for do not change its entry.
  add_cpus_later :
      (i k : ℕ) (us : List F) (m : GoMap F)
      → k < i
      → lookup (cpu_key (k + 1)) (add_cpus i us m) ≡ lookup (cpu_key (k + 1)) m
  unfolding add_cpus
  add_cpus_later i k [] m h = refl
  add_cpus_later i k (u ∷ us) m h =
      add_cpus_later (i + 1) k us (insert (cpu_key (i + 1)) u m) (omega arith)
      ∙ insert_other (i + 1) (k + 1) u m (omega arith)

  lookup-add_cpus :
      (i n : ℕ) (us : List F) (m : GoMap F)
      → lookup (cpu_key (i + n + 1)) m ≡ none
      → lookup (cpu_key (i + n + 1)) (add_cpus i us m) ≡ get_elem? us n
  unfolding add_cpus
  lookup-add_cpus i n [] m h = h
  lookup-add_cpus i zero (u ∷ us) m h =
      let e : i + 0 ≡ i = omega arith in
      rw e (
        add_cpus_later (i + 1) i us (insert (cpu_key (i + 1)) u m) (omega arith)
        ∙ insert_same (i + 1) u m)
  lookup-add_cpus i (suc n) (u ∷ us) m h =
      let e : i + suc n + 1 ≡ i + 1 + n + 1 = omega arith in
      let m' = insert (cpu_key (i + 1)) u m in
      rw e (
        lookup-add_cpus (i + 1) n us m' (
          insert_other (i + 1) (i + 1 + n + 1) u m (omega arith)
          ∙ ap (λ k. lookup (cpu_key k) m) (sym e)
          ∙ h))

  add_cpus-IsUnique : (i : ℕ) (us : List F) (m : GoMap F) → IsUnique m → IsUnique (add_cpus i us m)
  unfolding add_cpus
  add_cpus-IsUnique i [] m h = h
  add_cpus-IsUnique i (u ∷ us) m h =
      add_cpus-IsUnique (i + 1) us (insert (cpu_key (i + 1)) u m)
        (insert-IsUnique (cpu_key (i + 1)) u m h)

  float_entries-IsUnique : (m : MemoryMetrics F) → IsUnique (float_entries m)
  unfolding float_entries lookup str_eq
  float_entries-IsUnique m = (
    refl,
    (
      refl,
      (
        refl,
        (
          refl,
          (
            refl,
            (
              refl,
              (
                refl,
                (
                  refl,
                  (
                    refl,
                    (
                      refl,
                      (
                        refl,
                        (
                          refl,
                          (
                            refl,
                            (
                              refl,
                              (
                                refl,
                                (
                                  refl,
                                  (
                                    refl,
                                    (
                                      refl,
                                      (
                                        refl,
                                        (
                                          refl,
                                          (
                                            refl,
                                            (
                                              refl,
                                              (
                                                refl,
                                                (
                                                  refl,
                                                  (
                                                    refl,
                                                    (refl, (refl, (refl, (refl, (refl, tt))))),
                                                  ),
                                                ),
                                              ),
                                            ),
                                          ),
                                        ),
                                      ),
                                    ),
                                  ),
                                ),
                              ),
                            ),
                          ),
                        ),
                      ),
                    ),
                  ),
                ),
              ),
            ),
          ),
        ),
      ),
    ),
  )

  no_cpu_entry : (m : MemoryMetrics F) (n : ℕ) → lookup (cpu_key n) (float_entries m) ≡ none
  unfolding float_entries lookup str_eq cpu_key
  no_cpu_entry m n = refl

  -- `ToMap` files each name once, and each processor under its own number, which counts from 1.
  pub to_map-cpu :
      (m : MemoryMetrics F) (n : ℕ)
      → IsUnique (to_map m)
        × (lookup (cpu_key (0 + n + 1)) (to_map m) ≡ get_elem? m.cpu_utilization n)
  unfolding to_map
  to_map-cpu m n = (
    add_cpus-IsUnique 0 m.cpu_utilization (float_entries m) (float_entries-IsUnique m),
    lookup-add_cpus 0 n m.cpu_utilization (float_entries m) (no_cpu_entry m (0 + n + 1)),
  )
