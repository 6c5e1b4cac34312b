-- ===== src/Lib.antt =====
-- Verification of the HY2 backend: the accounting of a proxy node and the users whom it serves.
--
-- The panel lists the users of a node and takes its traffic reports. The controller (node/)
-- fetches the list, compares it with its own, and passes the changes to the runtime (core/), which
-- passes them to the node of the proxy (core/officialhy2/) and to its limiter (limiter/). The
-- proxy's callbacks count bytes (common/counter/) for users who are known and not revoked. The
-- reports go through the panel client (api/v2board/), which keeps an outbox file, so that a batch
-- survives a crash and is charged once. Recurring tasks (common/task/) drive all this.
--
-- Base        integers with the wrap-around of int64, tables for maps, lists, texts, equality, tests
-- Users       users and the checks on a list of them (api/v2board/user.go)
-- NodeInfo    what the panel says of a node (api/v2board/node.go): Fetch (GetNodeInfo), Accepted,
--             Intervals, Environment (the DNS variables), Examples
-- Traffic     the outbox: Checks and Select (checks and batches of traffic.go, traffic_isolation.go,
--             traffic_conflict.go), Effect (the client's state and the outside world), Panel
--             (requests: panel.go, user.go), Connect (New of panel.go, online devices of user.go),
--             Store (loading and saving the state), Send (sending a pending batch, conflicts,
--             isolation), Flush (rounds and the final drain), Audit (the invariant on traces of
--             events), Examples
-- Counter     counters of bytes (common/counter/traffic.go)
-- Limiter     limits of users and devices (limiter/limiter.go, limiter/dynamic.go)
-- Hysteria    the node: traffic callbacks (hook.go), pruning (accounting.go), users (manager.go),
--             limit checks of events (logger.go); Core is core/user.go, Nodes the nodes of the
--             manager (manager.go, core/node.go, core/core.go) and Quiet their end, Serve the serve
--             loop and stop (manager.go) with Tracked, Serving and Ending on it, Examples
-- Controller  comparison of lists, synchronization, revocation, heartbeat (node/user.go,
--             node/task.go); Same, Fingerprint, Reload, Monitor and Steady are the configuration's
--             monitor (node/task.go), Lifecycle, Start and Close are node/controller.go, Budgets is
--             node/timeout.go, Reports the capture of a report (node/user.go), Examples
-- Conf        the configuration file (conf/conf.go)
-- Server      what a server is made of (core/officialhy2/config.go): Certificates and Freshness (the
--             cache of certificates), Addresses (addresses and masquerade pages), Unlock, Choices and
--             Rules (outbounds and their rules), Build and Sockets (making a server), Outbounds and
--             Families (fast_direct_outbound.go, outbound_adapter.go), Examples
-- Certs       requests and renewals of certificates (node/cert.go, node/lego.go): Writes, Ready,
--             Account and Reopened (the account of the ACME user and its file), Examples
-- Process     the nodes of a process (node/node.go) and their replacement (cmd/server.go):
--             Reloading, Examples
-- Task        the life of a recurring task (common/task/task.go), as steps: Exits, Safety
-- Examples    the theorems on Counter, Limiter, Hysteria, Controller and Task at concrete values
--
-- Methods under a mutex are single steps. The client's methods are in a monad of a world that holds
-- the client, the outbox file and the trace of events; files, network, time, JSON, SHA-256 and
-- callbacks are results in a record `Env`, by the number of the call. The law assumed of it is that
-- of the codec of the outbox file (`Traffic.Audit.CodecLaws`). Pointers that two parts share are
-- addresses in a heap (storages of counters, limits of users).
--
-- The loop over buffered rows has one more unit of fuel than rows, the loop over captured rows as
-- many as rows: each round takes at least one row. `sendPending` retries at most once after its
-- first round.
--
-- The serve loop and stop of a node are two threads, and their steps interleave in every order; of
-- the hysteria library it is assumed that Serve returns once its server is closed. The exits of a
-- task are threads that look at it once and then pause (Task.Exits). StartContext and CloseContext
-- take the results of the panel's methods as arguments.
--
-- Of JSON, PEM and x509 the account of the ACME user assumes that they read back what they wrote
-- (Certs.Reopened).
--
-- The cache of certificates assumes of the file system that files with the same times and sizes are
-- the same (the `content` of Server.Freshness), and that a call finds the files of one moment; a
-- field of the outbounds library for IPv4 is assumed to hold an address of IPv4 (Server.Families).
--
-- Not modelled: the QUIC server, the connections of outbounds, the file watcher, the command line but
-- for reloads, logging, and the copy of the hysteria library under third_party/.
pub mod Base
pub mod Users
pub mod Traffic
pub mod Counter
pub mod Conf
pub mod Limiter
pub mod Server
pub mod Hysteria
pub mod Process
pub mod Certs
pub mod Controller
pub mod Task
pub mod NodeInfo
pub mod Examples
