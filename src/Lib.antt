-- ===== src/Lib.antt =====
-- InferFlow: a router that spreads chat completions over model servers.
--
-- A client posts a chat completion to the router. The router validates it, derives a cache key from
-- its prompt, asks the active strategy for a backend, calls that backend over HTTP, and answers. Health
-- checks and failed calls mark backends, `PUT /strategy` switches the strategy, and an affinity store
-- remembers which backend served a prompt last.
--
-- The files, from the ground up:
--   Prelude                 the library's names, tests on numbers (Prelude/Tests), lists (Prelude/Lists)
--   Int64                   `int64` and `int`, as words below 2 ^ 64 with the sign in the top bit
--   Text, Assoc             Go's strings as code points (Text/Trim, Text/Decimal), and Go's maps
--   Cache/Store             internal/cache/store.go, the interface of an affinity store with its laws
--   Cache/Memory            internal/cache/memory.go; Cache/Memory/Expiry has its critical sections,
--                           Cache/Memory/History sequences of calls against a log
--   Cache/Redis             internal/cache/redis.go, over a Redis server that is a parameter
--   Router/Heap             internal/router/backend.go, and the memory that the strategies share
--   Router/Slots            the index of the loop that every rotating strategy has
--   Router/Decision         internal/router/strategy.go: the input, the decision and its release
--   Router/RoundRobin       internal/router/roundrobin.go; its order, its fairness and its balance
--   Router/Loads            what leastpending.go, kvaware.go and costaware.go share: load counters
--                           (Track and Rebuilt for `SetBackends`), the choice of the least load
--                           (Chosen and Least)
--   Router/LeastPending, Router/CostAware, Router/Random, Router/KvAware
--                           the strategies in the files of internal/router of those names
--   Router/Race             `Select` of the two that choose the least load alone, as goroutines
--   Router/Strategy         the interface `Strategy`: a constructor for each implementation, with the
--                           constants of internal/router/strategy.go in Router/Names
--   Metrics                 internal/metrics/state.go; Metrics/Unordered on records in any order
--   Proxy                   internal/proxy/client.go; Proxy/Client on a network, with the URLs
--   Server/Request          `validateChatRequest`, `estimateRequestCost` and `buildCacheKey` of
--                           internal/server/server.go
--   Server/Names            `normalizeStrategyName`
--   Server/Config           `LoadConfigFromEnv` of internal/server/config.go
--   Server/State            the struct `Server` and the struct `Config` of internal/server/config.go,
--                           `New`, `setStrategy` and `probeBackends`
--   Server/Chat             `handleChatCompletions`, in two functions around the call of the backend
--   Server/Handle           `handleChatCompletions` as a whole, on a network
--   Server/Probe            a round of `probeBackends`
--   Server/Switch           a switch of the strategy over HTTP
--   Server/Handlers         `handleHealthz`, `handleReadyz` and `handleStrategy`
--   Server/Status           `handleStatus`, `handleMetrics` and `SortedKeys`
--   Server/System           the server as a step relation: requests come in and are answered in any
--                           order, among switches of the strategy and health checks
--   Server/Lifecycle        the goroutine of `startProber` and `Shutdown`, as a step relation
--   Server/Routes           the routes of `New`, and `corsMiddleware`; Server/Http with the wait for a
--                           backend
--   Server/Affinity, Server/Failover
--                           a prompt that comes again, and the request after one that failed
--   Llm, Vllm, Triton       internal/llm/client.go, internal/vllm/client.go, internal/triton/client.go
--   MockBackend             cmd/mock-backend/main.go
--   Adapter                 internal/adapter/server.go; Adapter/EndToEnd puts it behind the router's
--                           client, Adapter/Llama before the client of a llama.cpp server
--   Programs                the start of cmd/router/main.go (Router), of cmd/triton-adapter/main.go
--                           (TritonAdapter) and of cmd/vllm-adapter/main.go (LlamaAdapter)
--   Programs/Router/Process the router's process: `main`, the goroutine of the signal, `Run` and
--                           `Shutdown`, as a step relation
--   Programs/Router/Mocked, Programs/Router/Adapted
--                           the router in front of mock backends, and in front of adapters
--   Programs/Router/Sticky, Programs/Router/Moves
--                           prompts that come again, from the start of the router on
-- Server/Samples holds the data that the tests of the server share.
-- The other files named Tests run the definitions and the theorems on concrete input.
--
-- State. A `*Backend` and a `*atomic.Int64` are addresses in a memory (`Heap`), so that the strategies,
-- the closures in the decisions and the server share them; whatever changes a backend or a counter
-- changes the memory. A clock is an argument, in nanoseconds (in seconds for the response's time).
--
-- Bounds. The platform's `int` has 64 bits. A slice has at most 2 ^ 62 elements. The rotating strategies
-- count their turns in a `uint64` and convert it to `int`, which turns negative from 2 ^ 63 on: theorems
-- on what they choose ask for a counter below that. The estimates count without a bound.
-- The loops are structural or have the rounds that the source gives them; `decimal` has `n + 1` rounds,
-- of which each divides by ten.
--
-- Atomicity. In Server/System a strategy's `Select` is one step, and so is the handler before, and
-- after, its call of the backend. The two critical sections of `MemoryStore.PreferredBackend` are
-- looked at apart in Cache/Memory/Expiry. Router/Race has a step for each round of the loop and
-- each atomic operation of `LeastPending.Select` and `CostAware.Select`. Server/Lifecycle has a step for each
-- health check, and for each operation on a channel or on `stopOnce`, and Programs/Router/Process one for
-- each point where a goroutine of the process can wait. Server/Handle and Server/Probe run a handler, and
-- a round of health checks, with nothing beside it.
--
-- Parameters: SHA-256, Unicode's table of lower case outside ASCII, `math/rand`, `float64`, the Redis
-- server behind its client library, the redirections of the router's multiplexer (the other multiplexers
-- match whole paths), the environment with the parsers of URLs, numbers and durations, the quoting of `%q`,
-- `url.PathEscape`, and the outcomes of HTTP exchanges with their decoded JSON, one by
-- one or as a network (`Net`) that maps each URL and request to an outcome.
--
-- Not modelled: the text that JSON is written as; what `http.Server` does inside `ListenAndServe` and
-- `Shutdown`; logging; and the tracing stubs in internal/otel, which do nothing.
mod Prelude
pub mod Int64
pub mod Text
pub mod Assoc
pub mod Cache
pub mod Router
pub mod Metrics
pub mod Proxy
pub mod Server
pub mod Llm
pub mod Vllm
pub mod Triton
pub mod MockBackend
pub mod Adapter
pub mod Programs
