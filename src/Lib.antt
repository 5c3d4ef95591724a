-- ===== src/Lib.antt =====
-- go-musthave-metrics: a server that collects metrics over HTTP and an agent that measures and
-- sends them.
--
-- An agent's collector merges the measurements of its providers and counts its rounds; the sender
-- turns a measurement and the count into one batch of metrics, a worker pool runs the send, and the
-- client marshals, signs and compresses the batch. The server's router passes a request through the
-- request tracker, the rate limiter, the gzip and the hash middlewares to a handler; the handler
-- calls the metrics service, which calls a storage, in memory or in PostgreSQL, and publishes an
-- event of each batch.
--
-- Which file models which part (paths from the repository's root):
--   Base            texts as lists of code points, maps, int64, decimal numbers, error results
--   Model           internal/model/metrics.go; Model.Memory internal/model/memory_metrics.go
--   Config          the records and defaults of internal/config/agent.go and server.go; Sources how
--                   they use pflag and env, Config.Agent and Config.Server the parses
--   Retry           internal/retry/retry.go: `Do` is `retry_do`
--   Storage.Interface  internal/service/storage.go, as a record of operations with laws
--   Storage.Mem     internal/repository/memstorage/memstorage.go: the maps and their methods;
--                   Files has SaveToFile, LoadFromFile and GetAllMetrics, Life has NewMemStorage,
--                   StartPeriodicSave with its goroutine, and Close
--   Storage.Db      internal/repository/dbstorage/dbstorage.go; Instance has Ping,
--                   Close and the storage behind the interface, Single the rows of
--                   migrations/000001_create_metrics_table.up.sql
--   Service         internal/service/metricsservice/metrics_service_impl.go
--   Handler.Metrics internal/handler/metricshandler/metrics.go: UpdateMetrics is `update_batch`
--   Handler.Gzip    isGzipEncoding of internal/handler/middlewares/compressor/gzip.go
--   Handler.Compress  the rest of that file, and compressor.go beside it
--   Handler.Hash    internal/handler/middlewares/signer/signer.go, internal/service/signerservice
--   Handler.Limits  internal/handler/middlewares/limiter.go and track_active_requests.go
--   Handler.Pages   internal/handler/mainpagehandler, pinghandler, internal/service/mainpageservice
--   Server          createRouter of internal/server/server.go: the routes, and `serve`, one request
--                   through all middlewares; Network joins it to the agent's client
--   Server.Database internal/config/db: `connect`, `new_database`, `migrator_up`
--   Server.Startup  initStorage, initObservers and initDependencies of server.go
--   Server.Shutdown waitForShutdown of server.go, and resource_group.go beside it
--   Server.Run      Run of server.go, and cmd/server/main.go
--   Observers       internal/observers: the publisher; File and Http the audit file and the audit
--                   server
--   Agent.Collector internal/agent/collector/metrics_collector.go
--   Agent.Providers internal/agent/provider
--   Agent.App       Initialize of internal/agent/app.go, NewMetricsSender of metrics_sender.go
--   Agent.Lifecycle Run and Wait of app.go, beside the reporter's goroutine and the two senders
--   Agent.Sender    internal/agent/sender/metric_service.go; Batches has pools.go
--   Agent.Pool      internal/agent/sender/worker_pool.go
--   Agent.Reporter  internal/agent/reporter/metrics_reporter.go
--   Agent.Client    internal/agent/client/request_processor.go; Responses has
--                   response_processor.go, Requests client.go, with Post and Get, and Headers its
--                   state and setRequestHeaders
--   ObjPool         pkg/objpool/pool.go
--   Reset           cmd/reset: Syntax exprToString, Fields generateFieldReset, Bodies the body of a
--                   method, Imports collectNeededImports, Template the template, Files processFile
--                   and generateResetFile, Walk main.go with filepath.Walk
--   Linter          cmd/linter/analyzer.go
--   Tests           runs of the theorems at concrete values
--
-- State is passed explicitly: an operation takes a state and returns its result with the new state.
-- What a mutex guards from the first line of a method to its return is one step. Goroutines that
-- interleave are step relations: the periodic saver, the worker pool, the reporter, the agent from
-- its start to the end of Wait, the limiter, the tracker, the pool of objects.
-- An int64 is its bit pattern below 2 ^ 64, and additions wrap around; Go's int is an integer
-- without bound; a float64 is an abstract type. A Go map is an association list, and what a range
-- over it visits is a list with the same lookups. Texts are ASCII where the source changes case.
--
-- Fuel: `scan` of Handler.Gzip gets one more than the length of the header, and each turn of the
-- loop drops at least one character; `decimal` gets one more than the number. `attempt` of Retry
-- counts the attempts that are left, as the loop of the source does.
--
-- Parameters: encoding/json, compress/gzip, SHA-256, strconv on floats, the file system, the clock,
-- pgx, golang-migrate and PostgreSQL, net/http, chi, html/template, time.ParseDuration, pflag,
-- caarlos0/env, go/parser and go/format. What a theorem relies on of them is a record of laws
-- among its hypotheses. The ResponseWriter below the compressing one, in Handler.Compress, is that of
-- net/http as its documentation says.
--
-- Not modelled: logging, and what the programs print; the sync.Pools of the gzip middleware; main of
-- the agent, which only calls Run and Wait; and the mocks, which are generated for the tests.
pub mod Base
pub mod Model
pub mod Config
pub mod Retry
pub mod Storage
pub mod Handler
pub mod Service
pub mod Agent
pub mod ObjPool
pub mod Reset
pub mod Server
pub mod Observers
pub mod Linter
pub mod Tests
