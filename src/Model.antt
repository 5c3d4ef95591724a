-- ===== src/Model.antt =====
-- internal/model/metrics.go: the wire form of a metric. Floats are an abstract type `F`.
pub mod Memory
use go_musthave_metrics.Base.{◌≡◌, refl, false, Option}
use go_musthave_metrics.Base.Text.{Text, codes, str_eq}
use go_musthave_metrics.Base.Words.{Int64}

abbrev pub counter : Text
counter = codes "counter"

abbrev pub gauge : Text
gauge = codes "gauge"

-- `Delta` and `Value` are pointers in the source: `none` is nil.
pub record Metrics (F : Type 0) : Type 0 where
  pub id : Text
  pub mtype : Text
  pub delta : Option Int64
  pub value : Option F
  pub hash : Text

pub gauge-ne-counter : str_eq gauge counter ≡ false
unfolding str_eq
gauge-ne-counter = refl

pub counter-ne-gauge : str_eq counter gauge ≡ false
unfolding str_eq
counter-ne-gauge = refl
