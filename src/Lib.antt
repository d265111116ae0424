-- ===== src/Lib.antt =====
-- Verification of wing-binlog-go, a program that reads the binlog of a MySQL server, makes a
-- message of every changed row and hands the messages to subscribers.
--
-- The parts and their files:
-- - Prelude: shared names, tests, list lemmas, bytes; `Outcome` is what a Go call comes to: a
--   result, a panic, a wait that does not end, or a model's loop without fuel.
-- - Wire: src/library/service/util.go. `pack` and `unpack` are Pack and Unpack, `match_filters`
--   is MatchFilters over a parameter for Go's regexp.
-- - Stream: the read loop that src/services/subscribe/node.go, src/library/client/tcp.go and
--   src/library/control/node.go share, as a contract (`Framing`) of a reader that takes whole
--   frames off the front of its buffer.
-- - Subscribe: src/services/subscribe. Node is node.go, Groups is groups.go with the counter of
--   service.go, Server is tcp.go, Registry is the rest of service.go with getConnects of
--   src/library/client/watcher.go.
-- - Binlog: src/library/binlog. Position and Column are util.go, Cache and Rows are handler.go,
--   Control is binlog.go, State is config.go.
-- - Client: src/library/client. The parent, Messages, Pack, Frames, Life, Servers, Options
--   (NewClient and its options) and Run (the goroutine of `start`) are tcp.go, Watch is
--   watcher.go, with the long poll in Watch.Mirror.
-- - Control: src/library/control. `on_message` is onMessage of node.go over the callbacks that
--   main sets, Listen is the service of control.go.
-- - Agent: src/library/agent. `on_client_message`, `selected` and `sync` are onClientMessage,
--   the callback of Start and Sync of server.go, Members is ShowMembers, Setup is NewAgentServer
--   from its config file.
-- - Plugins: src/services/redis, src/services/kafka, src/services/http. Http.Workers are the
--   goroutines of node.go that post, as steps of a pool, with Life and Close for the whole of
--   their lives; Http.Starved is what a reload leaves them.
-- - Delivery: Subscribe, Wire and Client put together: the broadcasts and writes of a service as
--   a list of steps (`step_all`), and a client at the end of the connection.
-- - App: src/wing-binlog-go/main.go, which puts the parts together. Commands is the command
--   line, Reload the way of a reload, Signals and Leader the elections, Replica the positions a
--   follower takes, Forward the events it hands on, Process the pid file of
--   src/library/app/app.go and src/library/app/linux.go, Start is Init with
--   src/library/app/context.go, Main is main up to its services, Exit what it closes at its end.
-- - Config: the config files, getAppConfig and getMysqlConfig of src/library/app/app.go and, in
--   Services, the getConfig of each service. Settled is about the directories that the config
--   names, Missing about a file that is not there.
-- - System: src/library/path, src/library/file, src/library/string, src/library/ip,
--   src/library/log, src/library/http. Runes are Substr and Length, Callers is the caller of a
--   log line.
-- - Examples: runs on concrete inputs.
--
-- How they interact: Binlog.Rows numbers a message and calls every plugin and callback
-- (`Effect`). The TCP plugin (Subscribe.Server) packs it (Wire) and broadcasts it over
-- Subscribe.Groups to the nodes whose topics match (Wire.Filter); Client reads the frames. The
-- position of the binlog goes through Binlog.Position to the cache file of Binlog.Cache, and as
-- a packet through Agent to the followers, whose Binlog.Cache saves it. An election of Agent
-- becomes a signal of Binlog.Control. The command line writes a frame to Control, whose
-- callbacks reload the plugins.
--
-- State is a record per Go struct, with its status bits as Booleans; an operation is a function
-- from the state, in `Outcome` where it can panic or wait. A pointer to a client is a number
-- into a heap. A lock makes what runs under it one step; where the code leaves the lock between
-- two parts, the parts are two functions (`async_send` and `push_queue`, `stop_begins` and
-- `stop_ends`, `init_tests` and `init_writes`). Where a theorem holds for some orders of such
-- parts only, it says which. Loops without a bound run on fuel: a round for each byte of the buffer and one
-- more, since a round that goes on takes six bytes at least. Machine integers are numbers below
-- 2^w with `% 2 ^ w` where the code can wrap; an int64 is its bit pattern.
--
-- Parameters stand for code outside the repository: regexp, strings.ToLower, JSON, the canal,
-- consul, the Redis and Kafka clients, the clock, config files, the answers of the operating
-- system.
--
-- Not modelled: the accept loop of the control channel, whose connections are read by goroutines
-- side by side, and their read deadline; the signal handler of src/library/app/context.go, the fork of the daemon
-- library, pprof and the usage text of src/library/app, and src/library/ssh, src/library/time
-- and src/library/platform: calls of the operating system and of libraries.
pub mod Prelude
pub mod Wire
pub mod Stream
pub mod Subscribe
pub mod Binlog
pub mod Client
pub mod Control
pub mod Agent
pub mod Plugins
pub mod Delivery
pub mod App
pub mod System
pub mod Config
pub mod Examples
