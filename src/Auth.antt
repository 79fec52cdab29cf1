-- ===== src/Auth.antt =====
-- internal/auth/domain: the users.
pub mod User
