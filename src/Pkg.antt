-- ===== src/Pkg.antt =====
-- The packages under pkg/ that the domain stands on.
pub mod Maybe
pub mod Action
pub mod Event
pub mod Table
pub mod Validate
