-- ===== src/Store.antt =====
-- The SQLite stores of internal/deployment/infra/sqlite: what the events of an aggregate write, and
-- what is read back.
pub mod Targets
pub mod Deployments
pub mod Apps
pub mod Registries
pub mod Users
