-- ===== src/Sdk.antt =====
-- The parts of crates/dv-core/src/sdk.rs.
pub mod Version
pub mod Comments
pub mod Selection
mod Examples
