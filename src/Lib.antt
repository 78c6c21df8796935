-- ===== src/Lib.antt =====
-- ESOS Web UI: a Nuxt server that manages ESOS storage nodes (SANs) over SSH, alone or as
-- clusters. This library models the parts of the server that decide what is run on the nodes, for
-- whom, and what is reported.
--
-- A request passes the middleware (server/middleware, with server/utils/session-auth.ts and
-- server/utils/api-rbac.ts) and reaches a handler. A handler that changes LVM on a cluster builds a
-- plan and executes it (server/utils/lvm-cluster-execution.ts), with commands quoted for the remote
-- shell (server/utils/lvm-actions.ts). A handler that changes SCST checks the change
-- (utils/scst-lun-validation.ts), rewrites the configuration (server/utils/scst-config-writer.ts),
-- on every node of the cluster in turn where there is one (server/utils/scst-cluster-mutation.ts).
-- Readings of the nodes go through a cache (server/utils/server-cache.ts).
--
-- Common: lists, texts, maps and Boolean tests as JavaScript has them.
-- Cluster: the rows of the SAN table and the nodes of a cluster (server/utils/cluster-readonly.ts).
-- Shell: Defs has `shellQuote` and `shellSingleQuoteForRemote`, Posix is an independent
--   description of how a shell reads words.
-- Lvm: Types is types/lvm.ts; Commands the command lines; Plan the six `buildCluster...Plan`
--   functions, one function per builder and one per body of its loop; Execute is
--   `executeClusterLvmPlan`, with `run_node` for the body of the loop and `settle` for its end.
-- Access: Pattern the regular expressions of the rules, Rbac the two tables and `enforceApiRbac`,
--   Session `authenticateSessionFromToken`, Middleware the four handlers of server/middleware,
--   UriComponent the `decodeURIComponent` that san-readonly.ts calls, Prefix facts on prefixes.
-- Cache: Defs is `cachedFetch` before and after its `await`; Flights the runs of many calls.
-- Ssh: Manager is `SSHSessionManager` (server/utils/ssh-session-manager.ts), a method or event
--   handler per function, with `run_exec`, `resume_slot` and `begin_exec` for the parts of `runExec`
--   between its awaits; Runs is the step relation, Destroyed the microtasks after `destroy`.
-- Scst: Types is types/esos.ts; Luns the checks of a mapping; Names the checks of names; Mutators
--   and Devices the operations on the configuration; Cluster the loop over the nodes of a cluster. Conf is the
--   text of scst.conf: Words the regular expressions, Edits the objects and the stack of blocks,
--   Parser `parseScstConf` (server/utils/scst-conf-parser.ts), a function per kind of block, Printer
--   `serializeScstConfig`, a function per loop of it, Printable the configurations that are written
--   without loss. File has the operations on the text, which is read, changed and written.
-- Deploy: Types and Tables are the rows and statements of server/db/repositories/
--   deployment.repository.ts; Install the commands of `applyInstall`; Runner is `runTarget`
--   (server/utils/deployment-job-runner.ts), with a phase for each of its awaits; Jobs is
--   `runDeploymentJob`, whose tasks take their answers in any order; Rounds lets every task that has
--   not ended take one answer in each round.
--
-- The SSH pool, the remote nodes, the JWT verification and the user table are parameters. A
-- remote node is a world that every command may change and answer as it likes. Every loop is
-- over a list; only the printing of a decimal number counts rounds, n + 1 of them for the number
-- n, which each round divides by ten. Numbers of bytes, times and LUN numbers are natural numbers; a
-- JavaScript number that is none of them is told apart where a check does so.
--
-- Not modelled: the user interface, the parsers of command outputs, the preflight of LVM plans
-- (its result is an argument of the plan builders), the operations on SCST initiators, software RAID,
-- file systems, the retry of deployments and their catalogue of binaries, upgrades, alerts, the pool
-- of SSH managers and its file upload, LDAP and OIDC, and performance metrics.
mod Common
pub mod Shell
pub mod Cluster
pub mod Lvm
pub mod Access
pub mod Cache
pub mod Scst
pub mod Ssh
pub mod Deploy
