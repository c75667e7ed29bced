-- ===== src/Lib.antt =====
-- Verification library of the Go package observability: tracing, metrics, logging, resilience and
-- propagation for services.
--
-- The parts, and the files that model them (sources are under observability/):
-- - Types, Context: types.go and context.go, the spans and fields, and what a context carries.
-- - Tracer: tracer.go. `LocalTracer` with the global stack of active trace IDs as its state;
--   Tracer/Nesting runs programs of spans.
-- - Resilience/Breaker: `CircuitBreaker` of resilience.go, each method a function of the same name to
--   the next breaker; Resilience/Retry: `ResilientRoundTripper`, which asks the breaker, runs the loop
--   of retries and reports the outcome to the breaker.
-- - Limiter: limiter.go, the token bucket that the logger asks before it writes an entry.
-- - Metrics/Reservoir, Metrics/Key, Metrics/Store: metrics.go. A reservoir of latency samples, the key
--   of a metric with labels, and `InMemoryMetrics`, whose operations are `Op` and run in sequence.
-- - Otel: otel_bridge.go, the two adapters to OpenTelemetry, over Tracer and Metrics.
-- - Otlp: otlp_exporter.go. The two channels, the worker that collects batches, and the posts;
--   Otlp/Payloads has the payload of a post as nested records, Otlp/Decoding reads the records of a
--   batch back from its payload.
-- - Exporter: exporter.go, a summary of the metrics in the text format of Prometheus.
-- - RotatingFile: rotating_file.go. The files are a map from the number of a backup to its content.
-- - Propagation: propagation.go, trace IDs and baggage in the headers of a request.
-- - Logger/Format, Logger/Delivery, Logger/Entries: logger.go. The text of an entry with its masking,
--   the delivery of entries to the writer, directly or through a channel and its worker, and the
--   methods of the logger, which filter by level and ask the limiter. Logger/Format/Json reads an
--   object of JSON, independently of the code that prints one.
-- - Profiler: pprof_trigger.go, when a profile is started; Profiler/Goroutines, the goroutines that
--   write the profiles as a step relation, in which the turns of several of them interleave.
-- - Config: config.go.
-- - Facade: observability.go, the global instance and the globals beside it as one state, to which the
--   components are put together: a component records its calls of `Counter`, `Gauge`, `ExportLog` and
--   `ExportSpan`, and the facade carries them out. Facade/Lifecycle has `Init` and `Close`,
--   Facade/Calls the functions that forward, Facade/Background the goroutines, with
--   sys_telemetry.go, and Facade/Schedule runs calls and rounds of the goroutines in any
--   order; Facade/Exported follows a log entry, Facade/Counting the counters.
-- - Middleware, Requests: middleware.go, panic_middleware.go and transport.go. What is captured of a
--   request and of its response; the middlewares around a handler that may panic; the request that a
--   client sends, and in Requests/Transport its transport.
-- - Sql: sql_tracer.go, a span around a query. Exporter/Handler: the HTTP handler of the metrics.
-- - Example: cmd/api/main.go, the program that uses the package, with its handlers.
-- - Prelude, Text, Table, Float64: numbers, lists, texts and maps that the parts share.
--
-- How the code is read: an `int`, an `int64` and a `time.Duration` are bit patterns below 2 ^ 64
-- whose sums and products wrap and whose order is read in two's complement (Prelude/Int64); a
-- string is the list of its bytes; a map is an association list, whose order stands for the order
-- in which Go iterates; a panic is `none`. An error and a context are not nil, but for calls of the
-- package, which may pass nil (Facade/Calls). A method that holds a mutex is one step. `float64` is
-- an interface of the operations that the code uses (Float64), with the laws that a theorem needs
-- as its hypotheses. The clock, random bytes, regular expressions, outcomes of system calls, the
-- readings of package runtime, the OpenTelemetry SDK, the wrapped HTTP transport and the handlers
-- are arguments; what a call of the facade reads of these is its `Moment`.
--
-- Fuel: the loop of retries takes the number of its rounds, `retries + 1`, which is enough for
-- every `retries` but the largest `int`, whose loop has no last round; `finish` of
-- Profiler/Goroutines takes `all_work`, the calls that the goroutines have left to make, of which
-- each turn makes one; every other loop is structural recursion.
--
-- Not modelled: calls that run while `Init` or `Close` runs, of which only the lines delivered to a
-- logger that is closing are (Logger/Delivery); the mutation of a request by its handler; loggers of
-- other packages; the constructors that only fill in a default of the SDK; the contents of profiles.
mod Prelude
mod Text
mod Table
pub mod Types
pub mod Float64
pub mod Context
pub mod Tracer
pub mod Resilience
pub mod Limiter
pub mod Metrics
pub mod Otel
pub mod Otlp
pub mod Example
pub mod Exporter
pub mod RotatingFile
pub mod Sql
pub mod Propagation
pub mod Requests
pub mod Logger
pub mod Middleware
pub mod Profiler
pub mod Config
pub mod Facade
