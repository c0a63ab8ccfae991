-- ===== src/Lib.antt =====
-- ICAP Mock: verification library.
--
-- ICAP Mock is a server of the ICAP protocol (RFC 3507) for tests. A connection's requests are read by
-- internal/server, their bodies and headers by pkg/icap; a router hands a request to a handler, which
-- may be wrapped by middlewares and looks up a scenario; the response is written by pkg/icap, whole or as a paced stream.
--
-- Parts:
--   Prelude             shared names; byte strings, Go's strconv and strings, int64, Go maps.
--   Icap.Chunked        pkg/icap/encoding.go: ChunkedReader, ChunkedWriter and the functions on them.
--                       A stream is the bytes to come and the error behind them; a method that can
--                       fail keeps its state with its error.
--   Icap.Header         pkg/icap/header.go: Header is an association list; CanonicalHeaderKey, Get, Set,
--                       Add, Del, Values, Has, SetAll, ToMap, WriteToBuffer under their own names.
--   Icap.Body           pkg/icap/body_read.go and the lazily loaded body of an HTTPMessage in
--                       pkg/icap/request.go: GetBody and GetBodyLimited.
--   Icap.StreamPlan     pkg/icap/stream_plan.go: PlanBodyStream and the plan's chunk sizes and offsets.
--   Server.Protocol     internal/server/protocol.go: readProtocolLine, parseRequestLine, parseHeaders,
--                       which fill the headers of Icap.Header.
--   Server.Terminal     internal/server/terminal.go: the accounting of one request, as steps of
--                       goroutines in any order; the outcome of internal/server/metrics.go.
--   Router.Paths        internal/router/router.go: extractPath.
--   Router.Table        internal/router/router.go: Router; Runs is a router in use, from the new one on.
--   Router.Cache        internal/router/cache.go: the list of the LRU cache, doubly linked on a heap;
--                       Methods has the map beside it and the methods.
--   Storage             internal/storage/scenario.go and sharded_scenario.go. HeaderRules, Endpoints and
--                       Matching are matchesScenario and what it calls, in the order of the code, as
--                       checks that pass, reject or fail with the request's progress; Registry is
--                       scenarioRegistry; ShardKeys, Sharded and Sharded.Search are
--                       ShardedScenarioRegistry, Sharded.Filing follows where
--                       loading files each scenario, and Topology is the check on reloading.
--                       Loader shows that the bodies of Icap.Body can be
--                       loaded as matching relies on. A scenario that is added has been validated.
--   Handler.Timeout     internal/handler/adaptive_timeout.go: quickselect on an array that is a function
--                       of the index, and the tracker in Tracker.
--   Handler.Retry       internal/handler/retry.go: IsRetryable and the loop of the retry middleware.
--   Weight              internal/weight/percentage.go: Parse and String of a percentage.
--   Tests               runs of the definitions, and the theorems at concrete inputs.
--
-- Bounds: int and int64 values are natural numbers or integers, and wrap around where the code can
-- leave the range (Prelude.Int64). The loops of io.ReadAll and of the limited read take a number of rounds,
-- and one more than there are bytes is enough; the loop over trailers counts those that are still allowed, that
-- over headers likewise, and that of the retries the attempts that are left, so these need no fuel.
-- quickselect takes a number of calls, and as many as there are items is enough.
-- Digits are printed with one round for each digit at most. Trimming white space takes one round for each byte.
--
-- Not modelled: files, sockets, timers, logging and the collectors of metrics; floats (the backoff of
-- a retry; the rank and the factor of an adapted timeout, which are arguments);
-- the YAML and JSON forms of values; the bounded line reader of a connection, which reads
-- the same lines as the byte loop; reading and validating scenario files; the cache of the sharded
-- registry; the rest of the program (request storage, processors, handlers).
pub mod Handler
pub mod Icap
pub mod Prelude
pub mod Router
pub mod Server
pub mod Storage
pub mod Tests
pub mod Weight
