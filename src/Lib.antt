-- ===== src/Lib.antt =====
-- mesh-checker: nodes of a mesh probe each other, keep the last results, and show the state of
-- every link.
--
-- A node reads its configuration (internal/pkg/config), makes a job of each check of each peer
-- (internal/pkg/cli/serve.go), and runs the jobs on a pool of workers (internal/pkg/scheduler). A UDP
-- job sends an authenticated request (internal/pkg/probe/udp), which the peer's echo server answers
-- once (internal/pkg/server/probe). Results go to the store (internal/pkg/store); the classifier
-- (internal/pkg/classifier) and the aggregator (internal/pkg/aggregator) turn them into this node's
-- view, which other nodes fetch (internal/pkg/server/interhost) and the browser shows behind a login
-- (internal/pkg/server/ui). The other jobs are ICMP echoes, TCP connections and HTTPS requests
-- (internal/pkg/probe). The subcommands (internal/pkg/cli) start a node, check and edit the
-- configuration file, make the mesh CA and the certificates (internal/pkg/pki), and show the status.
--
-- Files:
--   Base        Go's tests, equality, slices, maps, signed integers and strings
--   Probe       probe/probe.go: the shared types; instants are nanoseconds since the epoch; Tcp and
--               Https for the probers of tcp/tcp.go and http/http.go
--   Icmp        probe/icmp/icmp.go: the calls and the read loop as a step relation; Routes for what
--               one change keeps, Runs for what holds of every run
--   Store       store/store.go: rings as records, methods as functions of the store
--   Classifier  classifier/classifier.go
--   Udp         probe/udp: payload.go in Payload and Replay, udp.go in Prober
--   Echo        server/probe/udp_echo.go: `handle` on one datagram, `run` on a sequence of events
--   Decimal     the printing and reading of decimal numbers that the sessions use
--   Ui          server/ui: Session, Login, Events for sse.go, and Mux with the middleware and the
--               routes
--   Config      config: the schema, Validate for validate.go, Files for Load, Save and CheckMode
--   Aggregator  aggregator/aggregator.go: the fetches end in any order
--   Pki         pki/pki.go: the CA, the certificates of the hosts, and their PEM texts
--   Cli         cli: Host, User, Pki, ConfigCommand, Status and Dispatch for the subcommands and their
--               table, Program for the table itself and cmd/mesh-checker/main.go, Mutate for configio.go;
--               Flags for what they use of package flag
--   Scheduler   scheduler/scheduler.go: tickers, channel and workers as a step relation up to the
--               return of `Run`, Next for the waiting time
--   Serve       cli/serve.go: probers, jobs and allowed names; Prepare for all that happens before
--               the node listens, Lifetime for its goroutines and its end
--   Interhost   server/interhost: the server's check of names, and the client
--   Tests       concrete instances and runs
--
-- State is passed explicitly: a method of a Go struct is a function from the record to the record and
-- its results, and a method that holds its lock throughout is one such function. Go errors are
-- values of `Fallible`, a panic is `none`. A Go int or int64 is an integer here; where the code
-- converts to 64 bits (the timestamp of a datagram, the expiry of a token) the conversion is written
-- out, with its wrap-around. Every function is total: loops are recursion on lists, and there is no
-- fuel.
--
-- Parameters, with what is assumed of them: HMAC-SHA256 (32 bytes; nothing is assumed about
-- forgeries), base64 (decoding gives back what was encoded), JSON (likewise), the file system (what
-- the calls promise, a failing call included), certificates, keys and PEM blocks (an encoding is
-- decoded to what it was made from, a certificate has the contents of its template, `IsCA` only with
-- valid basic constraints, the parent's name as its issuer and a signature by the given key),
-- `rand.Int63n` (a number below its argument), the ICMP message format, bcrypt, the terminal,
-- text/tabwriter, the dialers and clients, and the network (nothing).
--
-- Not modelled: TLS, which the standard library does, and its HTTP servers while they run;
-- timeouts and the clock, so that a tick or a timeout may come at any time; a wall clock that is
-- stepped, since an instant is one number here, while Go compares monotonic readings in the replay
-- cache; signals; logging; the embedded files, which are a parameter of the routes; the page that a
-- redirect carries; internal/pkg/version, a constant that is a parameter too; and
-- internal/pkg/recoverwrap, whose recovered panics are missing results or steps here.
pub mod Base
pub mod Pki
pub mod Probe
pub mod Store
pub mod Classifier
pub mod Udp
pub mod Echo
pub mod Decimal
pub mod Ui
pub mod Config
pub mod Aggregator
pub mod Cli
pub mod Scheduler
pub mod Serve
pub mod Icmp
pub mod Interhost
pub mod Tests
