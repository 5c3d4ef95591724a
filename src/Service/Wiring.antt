-- ===== src/Service/Wiring.antt =====
-- The service behind the handlers' interface, and what a client of the two endpoints sees.
use go_musthave_metrics.Base.{◌≡◌, some, arith}
use go_musthave_metrics.Base.Text.{Text, str_eq_refl}
use go_musthave_metrics.Base.Decimal.{format_int, parse_int}
use go_musthave_metrics.Base.Words.{Int64}
use go_musthave_metrics.Model.{counter, counter-ne-gauge}
use go_musthave_metrics.Storage.Interface.{Storage, IsLawful, bumped}
use go_musthave_metrics.Handler.Http.{header_only, status_ok}
use go_musthave_metrics.Handler.Metrics.{
  MetricsService, Formats, text_response, get_metric, update_metric, update_metric_by_type,
  is_valid_metric_type,
}
use go_musthave_metrics.Service
use go_musthave_metrics.Service.{ServiceState, Clock}

module _ {F S Time : Type 0} where
  abbrev pub metrics_service : Storage F S → Clock Time → MetricsService F (ServiceState S Time)
  metrics_service st clock = record {
    update_gauge = Service.update_gauge st;
    update_counter = Service.update_counter st;
    update_metrics = Service.update_metrics st clock;
    get_gauge = Service.get_gauge st;
    get_counter = Service.get_counter st;
  }

  module _ (fmt : Formats F) (st : Storage F S) (clock : Clock Time) (l : IsLawful st) where
    -- Over a lawful storage, and for a value that parses: a counter that was updated with 200 is
    -- then read as its old value plus the delta, and one that was never set as the delta itself.
    pub get-update_counter :
        (name value : Text) (d : Int64) (s : ServiceState S Time)
        → parse_int value ≡ some d
        → let svc = metrics_service st clock in
          let (r, s') = update_metric fmt svc counter name value s in
          r ≡ header_only status_ok
          → (get_metric fmt svc counter name s').0
            ≡ text_response (format_int (bumped (l.counter_of s.storage name) d))
    unfolding update_metric update_metric_by_type get_metric is_valid_metric_type
        Service.update_counter Service.get_counter
    get-update_counter name value d s parsed done =
        let (e, s') = st.update_counter name d s.storage in
        ground (
          arith,
          str_eq_refl counter,
          counter-ne-gauge,
          l.adds_counter name name d s.storage,
          l.reads_counter name s',
          str_eq_refl name,
        )
