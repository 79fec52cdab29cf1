-- ===== src/Domain.antt =====
-- internal/deployment/domain: value objects, aggregates, and the events they raise.
pub mod Values
pub mod Provider
pub mod Requirement
pub mod Services
pub mod Entrypoints
pub mod DeploymentState
pub mod TargetState
pub mod Target
pub mod EnvVars
pub mod App
pub mod Deployment
pub mod Registry
pub mod Urls
pub mod Naming
pub mod Building
