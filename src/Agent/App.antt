-- ===== src/Agent/App.antt =====
-- `Initialize` of internal/agent/app.go, and `NewMetricsSender` of
-- internal/agent/sender/metrics_sender.go.
pub mod Senders
use go_musthave_metrics.Base.{◌+◌, ◌*◌, not, ◌&&◌, Option, none, some, [], if◌then◌else◌}
use go_musthave_metrics.Base.Text.{Text, str_eq}
use go_musthave_metrics.Base.Ints.{ℤ, pos, negsuc, is_positive, to_count}
use go_musthave_metrics.Config.{AgentFlags}
use go_musthave_metrics.Retry.{Duration}
use go_musthave_metrics.Agent.Client.{RequestProcessor, new_request_processor, normalize_url}
use go_musthave_metrics.Agent.Pool.{WorkerPool, start}

-- A sender with a started pool, or one that starts a goroutine for each report.
pub data MetricsSender : Type 0 where
  pooled : WorkerPool → MetricsSender
  unlimited : MetricsSender

unfoldable pub new_metrics_sender : ℤ → ℤ → MetricsSender
new_metrics_sender workers queue_size =
    if not (is_positive workers)
    then unlimited
    else pooled (start (to_count workers) (to_count queue_size))

pub record App : Type 0 where
  pub base_url : Text
  pub request_processor : RequestProcessor
  pub polling_interval : Duration
  pub report_interval : Duration
  pub sender : MetricsSender

-- `a.config.RateLimit*2`
twice : ℤ → ℤ
twice (pos n) = pos (n * 2)
twice (negsuc n) = negsuc (n * 2 + 1)

signer_service : AgentFlags → Option Text
signer_service cfg = if str_eq cfg.secret_key [] then none else some cfg.secret_key

-- `none` is the panic of `time.NewTicker` on an interval that is not positive.
unfoldable pub initialize : AgentFlags → Option App
unfolding new_metrics_sender twice signer_service
initialize cfg =
    if is_positive cfg.polling_interval && is_positive cfg.report_interval
    then some (record {
      base_url = normalize_url cfg.server_addr;
      request_processor = new_request_processor (signer_service cfg);
      polling_interval = to_count cfg.polling_interval * 1_000_000_000;
      report_interval = to_count cfg.report_interval * 1_000_000_000;
      sender =
          if is_positive cfg.rate_limit
          then new_metrics_sender cfg.rate_limit (twice cfg.rate_limit)
          else new_metrics_sender (pos 0) (pos 0);
    })
    else none
