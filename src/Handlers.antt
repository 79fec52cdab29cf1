-- ===== src/Handlers.antt =====
-- The command and signal handlers of internal/deployment/app, over the tables of the stores. What a
-- handler takes as an interface (artifact manager, source, provider, registries) is an argument.
pub mod FailPending
pub mod Queueing
pub mod Apps
pub mod Registries
pub mod Users
pub mod Deploy
pub mod Configure
pub mod Cleanup
pub mod Exposing
pub mod Requests
pub mod Queues
pub mod Targets
