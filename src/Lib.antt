-- ===== src/Lib.antt =====
-- seelf deploys applications: a target is a machine that a provider (Docker) sets up, an application has
-- a configuration for each of its environments, and a deployment takes the application's source to the
-- target of one environment. Commands change aggregates; an aggregate raises events; a store writes what
-- the events say and hands them to signal handlers; these queue jobs, and a scheduler runs the jobs.
--
-- The files, and the code that they model:
--
-- Prelude and its children: Boolean tests, Go's `==` (a class whose instances decide equality), Go maps
--   as association lists, errors (pkg/apperr and the codes of the packages) and results.
-- Pkg: pkg/monad (Maybe), pkg/domain (Action), pkg/event (Event: aggregates that keep their events, and
--   what follows for all of them), pkg/validate (Validate), and the table of rows that the SQLite stores work on (Table).
-- Domain: internal/deployment/domain. Values, Requirement, Services and Provider are the value objects;
--   TargetState and DeploymentState are state.go; Entrypoints is the map of a target's entrypoints and
--   its methods `merge`, `remove` and `assign`; Target, App, Deployment and Registry are the aggregates,
--   EnvVars the comparison of configurations; Naming has the texts of deployment_config.go, appname.go and
--   service.go, Building the services and entrypoints that service.go makes. A method on a pointer is a function that returns the
--   aggregate afterwards and, where there is one, the error (`none` is nil). Under each aggregate, `Call`
--   lists its methods as data, so that a theorem speaks of any sequence of calls.
-- Auth: the users of internal/auth/domain.
-- Store: internal/deployment/infra/sqlite, targets.go, deployments.go, apps.go and registries.go, and
--   internal/auth/infra/sqlite/users.go:
--   a table is the list of its rows,
--   a query a function on it, and `write` makes one statement for each event of an aggregate.
-- Scheduler: pkg/bus/sqlite/store.go and pkg/bus/scheduler.go: the table of jobs in the order of its rows,
--   and the statements of `Setup`, `Create`, `Delete`, `GetNextPendingJobs`, `Retry` and `Done`.
-- Docker: internal/deployment/infra/provider/docker: Project and Transform are what deployment.go makes of
--   a Compose project, ComposeFile its choice of the file; Proxy and Resolve are proxy.go, the proxy of a
--   target and the search for its free ports; Prepare is the method of provider.go that reads a payload.
-- Bus: pkg/bus/memory/dispatcher.go (Memory: registrations, requests and notifications), and the
--   goroutines that pkg/bus/scheduler.go starts, one for each worker and the poller, as a step relation (Workers).
-- Handlers: internal/deployment/app: the deployment job (Deploy), the configuration job (Configure), the
--   cleanup and deletion jobs (Cleanup), the commands that queue deployments (Queueing), and the handlers
--   that cancel pending deployments (FailPending) and that expose and withdraw entrypoints (Exposing);
--   Requests has the commands that request a cleanup or a configuration, and the deletion of applications;
--   Apps has create_app and update_app, Registries and Targets the commands on these, Users those of
--   internal/auth/app; Queues has the handlers that queue jobs.
-- Scenarios: concrete aggregates and rows, and the theorems at them.
--
-- How the state is represented. Times are natural numbers (ticks, and seconds in the queue); the time
-- that a call reads and the identifier that it draws are arguments. A number of the code that counts
-- (deployments, ports) is a natural number; `ParsePort` refuses what does not fit 64 bits; the policy of a job is read bit by
-- bit. The order of the entries of a Go map carries no meaning. Every recursion is structural, on the
-- rows, the events or the calls, except that the digits of a number are printed on fuel, of which a number
-- has itself and one more, more than its digits. Concurrency is explicit: the jobs that work for long
-- take `meanwhile`, what the rest of the program does to the table between their two writes, and the
-- queue is a sequence of calls in any order.
--
-- Not modelled: whether the SQLite engine accepts a statement is the parameter `engine`; the provider,
-- the source and the artifact manager are arguments of the handlers that call them, `url.Parse`, the parser of
-- private keys, `net.ParseIP`, `mail.ParseAddress`, the hasher, the generator of keys, the port
-- specifications of nat, the file system's answers and the container that finds free ports are parameters
-- of the definitions that use them. Text is lowered on ASCII only. A column holds the
-- value that it encodes. Left out are the encodings, the SQL builder, migrations, the read models, HTTP,
-- the command line, Docker, git, archives, ssh and logging; how the
-- scheduler is stopped, and the stores in memory, which serve the tests.
pub mod Prelude
pub mod Pkg
pub mod Domain
pub mod Auth
pub mod Store
pub mod Scheduler
pub mod Docker
pub mod Bus
pub mod Handlers
pub mod Scenarios
