-- ===== src/Lib.antt =====
-- Verification of patience, a command-line tool that retries commands with backoff strategies, and
-- of its daemon. The program is a Go module; this library models the parts below and proves what
-- the list at the end states.
--
-- The executor runs a command until it succeeds, until a failure pattern matches, or until its
-- attempts are used up. It judges each attempt by the conditions, asks its strategy for the delay
-- before the next one, and before the first coordinates with the daemon if the strategy is the
-- Diophantine one. The daemon keeps the requests that are registered for each resource, admits a
-- new one only if every window of the strategy's length stays within the rate limit, and takes the
-- metrics of finished runs in through a pool of workers. A subcommand turns its options and the
-- configuration into a strategy and an executor. Patterns judge texts and HTTP responses; discovery
-- reads and learns rate limits from what commands write.
--
-- - Base: numbers, lists, and the signed integers with the wrap-around of int64 (`wrap64`) and the
--   saturation of time.Time.Sub (`saturate64`). Durations are int64 nanoseconds; instants are whole
--   nanoseconds without a range.
-- - Backoff: pkg/backoff/strategy.go (Linear: `Fixed`, `Linear`; Fibonacci; Exponential:
--   `Exponential`, `Jitter`, `DecorrelatedJitter`) and pkg/backoff/diophantine.go (Diophantine:
--   `CanScheduleRequest` is `can_schedule_request`, `Delay` is `diophantine_delay`). Cap is the cap
--   that the strategies share. Float arithmetic is the argument `Floats`; a random number is an
--   argument, and where a theorem needs it, it is assumed to lie in [0, 1) as documented.
--   Adaptive is pkg/backoff/adaptive.go with its children Memory, Ranges and Samples, Tracker
--   pkg/backoff/effectiveness_tracker.go, Polynomial pkg/backoff/polynomial.go, and HttpAware
--   pkg/backoff/http_aware.go, with texts as lists of bytes. Best is the loop for the best entry
--   that the first two share. The order in which range visits a map is an
--   argument where the result may depend on it.
-- - Conditions: pkg/conditions/conditions.go. A regular expression is a function on texts, its
--   compilation an argument; reasons are constructors in place of strings.
-- - Metrics: the counters of pkg/metrics/metrics.go.
-- - Executor: pkg/executor/executor.go and RunStats of pkg/ui/ui.go. Attempts is one attempt
--   (`executeAttempt`, `processAttemptResult`), Loop the retry loop of `Run`, Coordination what it
--   agrees with the daemon first, Run the two together; Capture is `limitedBuffer` and the result of
--   `RunWithOutputAndContext`. The runs of the command, the clock, the daemon's answers and the
--   strategy are arguments.
-- - Daemon: pkg/daemon/scheduler.go (Scheduler), pkg/daemon/worker_pool.go (WorkerPool, a step
--   relation over all interleavings, and Handling, its `handleConnection`) and the handlers of
--   pkg/daemon/unix_server.go (Protocol). `GetNextAvailableSlot` takes no lock over its loop, so the
--   scheduler that each of its rounds finds is an argument.
-- - Config: pkg/config/config.go, the validation (Validity) and the merges with flags
--   (Merging), with the names of the strategies in StrategyNames. A test of the code and its violation are a pair in the list `checks`.
-- - Patterns: pkg/patterns. The streaming matcher of multiline_matcher.go is in Patterns itself
--   (`ProcessChunk` is `process_chunk`) with its properties in Streams; the other matchers of that file
--   are in Multiline, their tables in Multiline.Tables. Json has the values, paths and the search of
--   json_matcher.go (`extractValueRecursive`), Compare its comparisons, JsonPattern how a pattern is
--   parsed and matched; its loop visits the map of the operators in an order that is an argument (Orders). Sets is pattern_set.go. Http and its children are http_pattern_matcher.go:
--   Parsing reads a response (`ParseHTTPResponse`), Matching and Routing are the matcher
--   (`MatchHTTPResponse`), Contexts what a match extracts, Advice `GetBackoffRecommendation`. Texts are
--   lists of code points. Regular expressions, ParseFloat and json.Unmarshal are the argument Library;
--   a map stands in the order in which range visits it; what can panic has a value for that.
-- - Discovery: pkg/discovery. Discovery itself is types.go, Resources, Parsing and Results are parser.go
--   (`ParseFromCommandOutput`), Database is database.go, whose tables are lists of rows, and Learner and
--   Trends are learner.go. Windows, Lookup, Stored and Evidence hold their properties.
-- - Command: cmd/patience/subcommands.go. Runs is what each subcommand does with its options before
--   the command runs (`RunE`, `loadConfigWithPrecedence`), Strategies the strategies it makes, Offsets
--   `parseRetryOffsets`, Executors the executor and the exit status. It uses Config for the merged
--   configuration and Executor for the run.
-- - Storage: pkg/storage/storage.go. Retention is what a store keeps, Recent `GetRecent`, Aggregation
--   and TopCommands the statistics of a time range.
-- - Examples: the theorems and definitions at concrete inputs.
--
-- Loops: the retry loop recurs on the attempts left, which MaxAttempts gives; the search for a slot
-- on its 1440 rounds; the Fibonacci and the doubling loop on their rounds; strings.Split on the
-- length of its text and one more round; the window loops on the slice from their index on. The search
-- in JSON objects has no bound in the code: it is given the length of its text and one more round, and
-- its result says when the rounds are used up, which does not happen.
--
-- Not modelled: input and output (processes, sockets, HTTP, files, printing), the decoding of JSON
-- and YAML, regular expressions, the engine and the errors of SQL, the times in the matchers'
-- metrics; of the program's own parts the selection of strategies by HTTP history, the strategies
-- with discovered limits, the enhanced parser, the grouping and the service of pkg/discovery, the
-- daemon's HTTP server, life cycle and client, pkg/monitoring, and main.go of the two commands.
pub mod Base
pub mod Backoff
pub mod Conditions
pub mod Metrics
pub mod Config
pub mod Patterns
pub mod Storage
pub mod Executor
pub mod Daemon
pub mod Command
pub mod Discovery
pub mod Examples
