-- ===== src/Lib.antt =====
-- timesync-analyzer collects time synchronisation metrics (ptp4l, phc2sys, PPS, system
-- statistics) from nodes, stores them in PostgreSQL, computes MTIE, TDEV and ADEV over sliding
-- windows, and renders reports. This library models its core logic in Go, under src/internal.
--
-- Parts and how they interact. Messages of the nodes reach `handleMsg` (src/internal/app/app.go),
-- whose handlers resolve the node and call the `Storage` interface
-- (src/internal/storage/storage.go). One implementation, `BatchPostgresStorage`
-- (src/internal/storage/batch_pg.go), keeps seven buffers that inserts fill and flushes copy into
-- tables. `MetricsWindowSlider` (src/internal/app/window_metrics.go) reads offsets back and
-- writes window metrics through the same interface. `reportd.Service`
-- (src/internal/reportd/service.go) queues report jobs, runs them in workers, and cleans old
-- reports up (src/internal/reportd/cleanup.go); jobs come from Grafana alerts
-- (src/internal/reportd/grafana.go) and at fixed intervals (src/internal/reportd/auto.go); render
-- groups and durations are parsed in src/internal/reportd/parse.go. HTTP requests reach the service
-- through src/internal/reportd/handlers.go. A job's charts are panels that Grafana renders
-- (src/internal/report/grafana.go). The other implementation of `Storage`, `PostgresStorage`
-- (src/internal/storage/postgres.go), writes each row at once and caches the numbers of nodes and
-- sensors; `BatchPostgresStorage` takes these operations over from it.
--
-- Files:
--   Storage/Rows            the row types of src/internal/storage/batch_pg.go
--   Storage/Tx              copyViaTempTable, with each failing database call; Handed: the rows
--                           that its calls hand on
--   Storage/Batch           the state; Buffer: one buffer; Flush, Inserts: the seven of each and
--                           FlushAll; History: sequences of operations against append-only logs;
--                           Bounds: batch sizes; Shutdown: FlushAll and Run; Interleaved:
--                           concurrent inserts and flushes
--   Storage/Postgres        PostgresStorage of src/internal/storage/postgres.go; Caches: nodes and
--                           sensors (Numbers, Coherent: against the tables); Inserts, Reads: single
--                           statements; Topology: the transaction (Statements, Atomic);
--                           Stale: DeactivateStaleNodes (Correct); Service: the interface that the
--                           handlers call (Agreement)
--   App/Handlers            handleMsg and the handlers; Messages: messages, calls, the interface;
--                           Trace: what is called; Isolation: failures in handleSystem; Preserves:
--                           what all calls keep
--   App/Queue               Run, its channel and its workers as a step relation; Delivery: what
--                           becomes of the messages
--   App/Slider/Deque        the container/list deques of CalculateMTIE
--   App/Slider/Mtie         CalculateMTIE; Invariant, Correct: its proof
--   App/Slider/Deviation    CalculateADEV, CalculateTDEV
--   App/Slider/Windows      calculateSlideWindows, toSamples, estimateTau0; Rows: the rows it
--                           writes
--   Reportd/Types           src/internal/reportd/types.go and parts of
--                           src/internal/report/types.go
--   Reportd/Groups          render groups of src/internal/reportd/parse.go; Roundtrip: printed and
--                           read again
--   Reportd/Service         enqueue, getJob, listJobs, reserveAlertFingerprint and helpers; Run:
--                           timers and runJob; Invariant: the job table; Calls: single calls;
--                           Threads: all interleavings of handlers, timers and workers as a step
--                           relation
--   Reportd/Durations       parseLooseDuration, parseNowExpression of
--                           src/internal/reportd/parse.go
--   Reportd/Alerts          src/internal/reportd/grafana.go; Accounts: what its answer accounts
--                           for
--   Reportd/Auto            src/internal/reportd/auto.go
--   Reportd/Cleanup         runCleanup, activeReportDirs, dropJobsForDirs; Effects: what it
--                           removes
--   Reportd/Http            src/internal/reportd/http_util.go; Strconv: numbers and Booleans of
--                           queries; Requests: from a request to a job
--                           (Accepted); Files: file names; Paths: of files; Routes: the handlers of
--                           src/internal/reportd/handlers.go; Guarded, Created: what they allow
--   Report/Render           renderGrafanaCharts of src/internal/report/grafana.go; Pool: its
--                           goroutines as a step relation (Invariant, Kept, Outcome, Progress)
--   Report/Panels           dashboards and their panels; Names: safeName of
--                           src/internal/report/util.go
--   Report/Generate         Generate of src/internal/report/report.go; Steps: where it stops
--   Report/Pages            the chart pages of src/internal/report/pdf_maroto.go
--   Common                  tests, lists, integers, maps, strings, float64, counting
--   Tests                   the theorems at concrete inputs
--
-- Conventions. A Go method is a function from the state to the new state and its result; Go names
-- are written in snake case. int64 arithmetic that may overflow wraps (Common/Int). float64
-- values are bit patterns, and their operations are a parameter (FloatOps); proofs that need
-- monotone subtraction say so (FloatOrder). The database, the clock, report.Generate,
-- filepath.Abs and the formatted job id are parameters; of the id, that different sequence
-- numbers give different ids. What PostgreSQL does with a statement or a transaction is stated in
-- the records NumberLaws, TxLaws and ActivityLaws. HTTP requests are taken with their JSON decoded.
--
-- Fuel. The inner loop of CalculateMTIE runs on as much fuel as the index of the newest sample,
-- and each round moves the left end nearer to it. The loops of CalculateADEV and CalculateTDEV
-- run on as much fuel as there are samples, and the loop over chart pages on as much as there are
-- charts. That this is enough is part of the proofs. All other loops are structural.
--
-- Not modelled: the HTTP calls to Grafana, the decoding of images, the contents of
-- CSV and PDF files, the statistics that SQL computes, the systemd watchdog, configuration, the
-- adapter, the main programs, logging, locks that guard a single access, and the tickers.
pub mod Common
pub mod Storage
pub mod Reportd
pub mod Report
pub mod App
pub mod Tests
