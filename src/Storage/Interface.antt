-- ===== src/Storage/Interface.antt =====
-- internal/service/storage.go: the interface that every storage implements, and what the services
-- rely on.
use go_musthave_metrics.Base.{◌≡◌, Option, none, some, List, if◌then◌else◌}
use go_musthave_metrics.Base.Text.{Text, str_eq}
use go_musthave_metrics.Base.Words.{Int64, add64}
use go_musthave_metrics.Base.Results.{Error, Result}
use go_musthave_metrics.Model.{Metrics}

-- The operations on a storage whose state is `S`.
pub record Storage (F S : Type 0) : Type 0 where
  pub update_gauge : Text → F → S → Option Error × S
  pub update_counter : Text → Int64 → S → Option Error × S
  pub update_metrics : List (Metrics F) → S → Option Error × S
  pub get_gauge : Text → S → Option F × S
  pub get_counter : Text → S → Option Int64 × S
  pub get_all_metrics : S → Result Text × S
  pub ping : S → Option Error × S

-- The first delta is the counter's value; later ones are added.
abbrev pub bumped : Option Int64 → Int64 → Int64
bumped none d = d
bumped (some x) d = add64 x d

-- Reads change nothing and report what is stored; a write that returns nil has stored its value
-- under its name only, and one that returns an error has changed nothing.
pub record IsLawful {F S : Type 0} (st : Storage F S) : Type 0 where
  pub gauge_of : S → Text → Option F
  pub counter_of : S → Text → Option Int64
  pub reads_gauge : (k : Text) (s : S) → st.get_gauge k s ≡ (gauge_of s k, s)
  pub reads_counter : (k : Text) (s : S) → st.get_counter k s ≡ (counter_of s k, s)
  pub sets_gauge :
      (k j : Text) (v : F) (s : S)
      → (st.update_gauge k v s).0 ≡ none
      → gauge_of (st.update_gauge k v s).1 j ≡ (if str_eq k j then some v else gauge_of s j)
  pub adds_counter :
      (k j : Text) (d : Int64) (s : S)
      → (st.update_counter k d s).0 ≡ none
      → counter_of (st.update_counter k d s).1 j
        ≡ (if str_eq k j then some (bumped (counter_of s k) d) else counter_of s j)
  pub keeps_counters :
      (k j : Text) (v : F) (s : S) → counter_of (st.update_gauge k v s).1 j ≡ counter_of s j
  pub keeps_gauges :
      (k j : Text) (d : Int64) (s : S) → gauge_of (st.update_counter k d s).1 j ≡ gauge_of s j
