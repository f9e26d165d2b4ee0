-- ===== src/Lib.antt =====
-- Forgery, a daemon between Forgejo instances and GitHub Actions. It polls every instance for a task,
-- starts a GitHub Actions workflow for it, and serves the runner that the workflow starts: the runner
-- registers with the task's one-time registration token, fetches the task, reports logs and states,
-- which are relayed to the instance that owns the task, and reaches the instance's git and API paths
-- through a proxy.
--
-- The parts, and the files that model them:
--   Proto      the protobuf messages, less the fields that no code reads (kept as `unread`)
--   Task       internal/store/store.go: TaskCtx, its status and its two signal channels. A *TaskCtx is
--              a reference into a heap, since the store, the sessions and the proxy's token registry
--              share it.
--   Store      internal/store/memstore.go: PutPending, GetByRegToken, MarkRegTokenConsumed, Remove, GC,
--              CountActive on the maps tasks and byReg. Store/Index keeps the invariant of the
--              two maps, Store/Gc is about GC and CountActive, Store/History about sequences of calls.
--              Store/Refinement states what the TaskStore interface promises, less CountActive.
--   Slots      internal/slots/pool.go: the buffered channel of slots as a count with its capacity
--   Token      internal/token/token.go, with crypto/rand as a parameter. Token/Preview has truncateToken of
--              internal/south/handler.go and tokenPrefix of internal/app/app.go.
--   Session    internal/session/manager.go: Create, CreateWithToken, Lookup, Touch, Remove, Expire
--   Config     internal/config/config.go: applyDefaults, validate and parseLabels; Config/Load is Load,
--              Config/Message builds the text of a validation error
--   Payload    internal/south/payload.go: the edits of the YAML tree (Payload/Tree, Payload/Checkout) and
--              the rewriting of server URL expressions (Payload/Urls)
--   North      the interface of internal/north/client.go that the other parts call, and the resolver of
--              internal/app/app.go
--   World      what the goroutines share: heap, store, sessions, token registry, and the requests
--              relayed so far, the newest first
--   Registry   internal/south/proxy.go: the registry of task tokens
--   Proxy      internal/south/proxy.go: path matching, token extraction and the decision of ServeHTTP;
--              Proxy/Transports has the cache of transports
--   South      internal/south/handler.go: authenticate, Register, Declare, FetchTask, UpdateTask and
--              UpdateLog, each a function from the shared state to an answer and the state after it.
--              South/Auth, South/Registration, South/Calls, South/Terminal and South/Routing hold the
--              theorems about them, South/Forwarding what FetchTask and the proxy do together. South/Server is
--              NewServer's mux.
--   Dispatch   internal/dispatch/github.go: the request to GitHub and the retry loop of Trigger
--   Run        internal/run/runner.go: HandleTask as a sequence of steps on the shared state. Between
--              two steps other goroutines may change the state in any way: their effect is an argument.
--              Run/Dispatched puts the dispatch to GitHub in front of it, Run/Wakes is about the ends of the
--              wait for the runner.
--   Poll       internal/north/poller.go: one round of PollLoop, in Poll/Fetching with the request that it
--              makes by the client of North/Connection
--   North/Connection  internal/north/client.go: the identity of a client and its generation, Register,
--              retryOnAuth and the backoff of failed registrations. Connection/Fleet has a step relation
--              for many requests at once over one client, each of which follows retryOnAuth.
--   North/Service  internal/north/client.go: Declare, ForwardUpdateTask, ForwardUpdateLog, StartHeartbeat,
--              and the FetchTask of PollLoop; Service/Heartbeats has a task's heartbeats during a backoff
--   State      internal/state/state.go: Load and Save of runner identities in one file
--   World/Routed  what ties the shared state together; the Invariant modules of the other parts show that
--              each operation keeps it.
--   World/Later  what no operation undoes; the Later modules of the other parts show it of each operation.
--   Mux        net/http's ServeMux: the rule that South/Server and Observability rely on, as a hypothesis
--              about a parameter
--   Observability  internal/observability: the level and the format of the log, and the health probe
--   System     the daemon as a whole: a step relation in which the calls of runners, the proxy, the poll
--              rounds, the HandleTask goroutines and gcOnce interleave on the shared state and the pool.
--              System/Tracked is about the tasks that the store holds, System/Ended and System/Progress about the
--              end of a task, System/Shutdown about the end of the daemon: Run waits for active tasks while
--              the other parts go on.
--   App        internal/app/app.go: gcOnce and gcLoop. App/Startup is the loop of Run that registers every
--              instance, App/Drain the wait for active tasks at shutdown, App/Exit the way from main of
--              cmd/forgery/main.go through Run to the exit code.
--   Base       lists, byte strings, maps and integers that all of them use
--   Examples   concrete states on which the theorems are applied
--
-- Conventions. A Go string is its list of bytes. A Go map is an association list with distinct keys;
-- no theorem depends on its order. Times are nanoseconds since a fixed origin, and durations are
-- integers. Every call reads the clock once: the code reads it again later in some calls. A panic is
-- a result of its own, as an error is. The steps of one call are taken together, as the locks and the
-- single owner of a task's session make them; interleavings of whole calls are sequences of calls.
--
-- The failure reports of HandleTask and gcOnce go out under the daemon's context. Whether it has ended
-- before such a request is sent is an argument: a request under an ended context is not sent. Where Trigger
-- fails because the context has ended, it has. One that is cut off while under way counts as sent.
--
-- The rewriting of URL expressions runs on fuel, one more than the length of the text, and every round
-- takes at least one byte. The wait for active tasks runs on a number of rounds, one more than the round at
-- which its timeout has come. The retry loop and the loops over maps are structural. The generation of a
-- client is a 64-bit counter that wraps.
--
-- Outside the model: what is logged, HTTP and protobuf transport, YAML, TOML and JSON, base64, URL parsing,
-- fmt, the file system and randomness, which are parameters where a definition needs their result;
-- strings.TrimSpace and strings.ToLower on bytes beyond ASCII. A ServeMux redirects a path that is not clean
-- or that is a subtree less its slash; such requests are left out. Not modelled: how Run
-- (internal/app/app.go) shuts down its HTTP servers, and how the runtime schedules goroutines, which is the
-- order of steps in System.
pub mod App
pub mod Base
pub mod Config
pub mod Dispatch
pub mod Examples
pub mod Mux
pub mod North
pub mod Observability
pub mod Payload
pub mod Poll
pub mod Proto
pub mod Proxy
pub mod Registry
pub mod Run
pub mod Session
pub mod Slots
pub mod South
pub mod State
pub mod Store
pub mod System
pub mod Task
pub mod Token
pub mod World
