-- ===== src/Service.antt =====
-- internal/service/metricsservice/metrics_service_impl.go and internal/model/audit.go. The state is
-- the storage's and the list of events handed to the publisher's goroutines so far, oldest first.
pub mod Wiring
use go_musthave_metrics.Base.{Option, none, some, List, [], ◌∷◌, ◌++◌, map}
use go_musthave_metrics.Base.Text.{Text, codes}
use go_musthave_metrics.Base.Words.{Int64}
use go_musthave_metrics.Base.Results.{Error, Result, ok, err}
use go_musthave_metrics.Model.{Metrics}
use go_musthave_metrics.Storage.Interface.{Storage}

-- `Timestamp` is left out of the JSON; `ts` is the same moment in milliseconds.
pub record MetricProcessedEvent (Time : Type 0) : Type 0 where
  pub timestamp : Time
  pub ts : Int64
  pub metrics : List Text
  pub ip_addr : Text

pub record ServiceState (S Time : Type 0) : Type 0 where
  pub storage : S
  pub published : List (MetricProcessedEvent Time)

-- What `time.Now()` returned, and `UnixMilli`.
pub record Clock (Time : Type 0) : Type 0 where
  pub now : Time
  pub unix_milli : Time → Int64

module _ {F S Time : Type 0} (st : Storage F S) where
  unfoldable pub update_gauge : Text → F → ServiceState S Time → Option Error × ServiceState S Time
  update_gauge name value s =
      let (e, s') = st.update_gauge name value s.storage in (e, record s { storage = s' })

  unfoldable pub update_counter :
      Text → Int64 → ServiceState S Time → Option Error × ServiceState S Time
  update_counter name value s =
      let (e, s') = st.update_counter name value s.storage in (e, record s { storage = s' })

  unfoldable pub update_metrics :
      Clock Time
      → List (Metrics F)
      → Text
      → ServiceState S Time
      → Option Error × ServiceState S Time
  update_metrics clock metrics ip_addr s =
      let (e, s') = st.update_metrics metrics s.storage in
      let event : MetricProcessedEvent Time = record {
        timestamp = clock.now;
        ts = clock.unix_milli clock.now;
        metrics = map (λ m. m.id) metrics;
        ip_addr = ip_addr;
      } in
      elim e [
        | some m ↦
            (some (codes "failed to save metrics in storage: " ++ m), record s { storage = s' })
        | none ↦ (none, record { storage = s'; published = s.published ++ event ∷ [] })
      ]

  unfoldable pub get_gauge : Text → ServiceState S Time → Result F × ServiceState S Time
  get_gauge name s =
      let (v, s') = st.get_gauge name s.storage in
      (
        elim v [ none ↦ err (codes "gauge metric not found") | some x ↦ ok x ],
        record s { storage = s' },
      )

  unfoldable pub get_counter : Text → ServiceState S Time → Result Int64 × ServiceState S Time
  get_counter name s =
      let (v, s') = st.get_counter name s.storage in
      (
        elim v [ none ↦ err (codes "counter metric not found") | some x ↦ ok x ],
        record s { storage = s' },
      )
