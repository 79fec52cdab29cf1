-- ===== src/Docker.antt =====
-- internal/deployment/infra/provider/docker: the projects that are handed to Docker Compose.
pub mod Prepare
pub mod Project
pub mod Transform
pub mod ComposeFile
pub mod Proxy
pub mod Resolve
