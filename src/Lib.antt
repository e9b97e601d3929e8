-- ===== src/Lib.antt =====
-- xray-vless-ws-go: a VLESS server behind a Cloudflare tunnel, in Go.
--
-- The program reads its configuration from the environment (internal/config), starts xray-core and
-- cloudflared, and supervises the latter (internal/tunnel). The public host name that the tunnel
-- gets goes into the links for the clients (internal/linkgen). A log server (internal/logserver)
-- shows the log lines, the status and the links to whoever has the password, and the program can
-- replace its own executable by a newer release (internal/selfupdate). It can deploy a Worker and a
-- named tunnel on Cloudflare (internal/cfdeploy), and in a workflow it uploads the files that change
-- (internal/ci).
--
-- Files and the code that they model:
--   Base      what all share: tests on numbers, lists, results, and strings as lists of bytes; Script
--             has code that changes a state and stops at its first error, with rules for what it leaves.
--   Text      the functions of Go's strings and strconv that the code calls: Trim, Split, Search and
--             Decimal.
--   Config    internal/config. Sni is sni.go, Ports is ports.go, Random is uuid.go and secret.go, Env
--             is `fromEnv` of config.go with defaults.go, and EnvFile is its `Load` and `Reload`:
--             EnvFile/Plain states what is asked of godotenv, that it reads comments and plain settings,
--             the last setting of a key and the environment before the file. An error return is
--             a constructor of `ConfigError` with the strings that its message quotes.
--   LinkGen   internal/linkgen. Quote is quote.go, Links is links.go, Export is export.go, webhook.go
--             and publicip.go; Links/Reader is an independent reader of links, written from the syntax of
--             URLs, and Links/Described is what the settings say of a link.
--   LogServer internal/logserver. Ring is ring.go, Status is status.go, Auth is auth.go, and Server is
--             server.go: Server/Content has the handlers that only read, Server/Routes the routes of
--             `Start`, and Server/Start `New`, the cookies and the end of `Start`. A mutex makes each
--             operation one step of its state. Page is `fetchLogs` of web/logserver/static/app.js,
--             which polls /logs, in any interleaving with the pushes.
--   SelfUpdate internal/selfupdate. Files is the directory of the executable, with names that lead to
--             inodes; Swap is swap.go; Sums is verify.go and github.go; Update is run.go, rollback.go
--             and restart.go.
--   Tunnel    internal/tunnel. Hostname is hostname.go, Launch is launch.go and named.go with the
--             system calls of a launch in Launch/Process, Download is download.go, Watch is `watch` of
--             supervisor.go with `pollReadyOnce` of ready.go, Ready is its `PollReady`, Supervisor is
--             `Run` of supervisor.go, Lines is its `streamLines`, and Fake is
--             testdata/fakecloudflared/main.go.
--   CfDeploy  internal/cfdeploy. CfDeploy is the interface of the Cloudflare API, Tunnel is tunnel.go and
--             kv.go, Ensure is deploy.go and account.go, and Client is client.go with the bodies of
--             script.go and domain.go. Http makes the interface of the requests of Client, over any
--             transport; Http/Protocol has the order of the requests that change the account.
--   Ci        internal/ci. Watcher is watcher.go, Redact and Git are gitpush.go, Bridge is bridge.go and
--             Env is env.go and timer.go. Git/Protocol has the automaton of the commands, Git/Token the token.
--   Xray      internal/xraycore. Json is what encoding/json marshals, BuildConfig is config.go with an
--             independent reader of the tree in BuildConfig/Reader, and Engine is engine.go and health.go.
--             BuildConfig/Agreement sets the inbounds beside the links of LinkGen.
--   Main      cmd/xrayws/main.go: `run` as a trace of actions, and in Callbacks `exportLinks` and what
--             the goroutines do at each of their events. Provisioning joins it with CfDeploy, and
--             Reachability joins Config, LinkGen, Tunnel and Xray: the two ends of a connection.
--   SmokeTest cmd/xraycore-smoketest/main.go. Vless has the request that is built by hand and the header
--             of the answer, Outbound the patch of the configuration, and Run is `run` as a trace of
--             what is opened and closed.
--   In each of them Tests, or a module whose name ends so, applies the theorems at concrete inputs.
--
-- What the code calls from outside is an argument: the environment, the random bytes, the clock, the
-- files, HMAC-SHA256 and SHA-256, the answers to HTTP requests, decoded JSON, the success of each
-- system call, and the events that a `select` receives in the order in which it does. Strings are
-- lists of bytes; `strings.ToLower` is modelled for the letters whose lower case is ASCII. Counters
-- in a ring and backoff durations stay far below 2^63 and are natural numbers; numbers that are read
-- from text have the bounds of a 64-bit integer. No definition runs on fuel: loops are structural
-- recursion on lists of bytes, lines, entries, events or rounds.
--
-- Not modelled: listening and shutting down of the HTTP server and what a started process does, which
-- are left to the system; the delays of internal/ci themselves; signals and printing; the echo
-- server of the smoke test, which copies; the flags and the exit of fakecloudflared; the rest of web,
-- which shows what it is given, its button that clears the log, and the embedding of its files. A fetch
-- of the page is answered by the server when its answer arrives. Fetches may overlap in the model; the
-- theorems on the page are for those that do not, since two on the way ask for the same lines.
mod Base
pub mod CfDeploy
pub mod Ci
pub mod Config
pub mod LinkGen
pub mod LogServer
pub mod Main
pub mod SelfUpdate
pub mod SmokeTest
pub mod Text
pub mod Tunnel
pub mod Xray
