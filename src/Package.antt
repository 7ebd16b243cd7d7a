-- ===== src/Package.antt =====
-- crates/dv-core/src/package.rs: package versions, ranges, and the resolution of the graph.
pub mod Error
pub mod Version
pub mod Range
pub mod Pruning
pub mod Graph
pub mod Glob
pub mod Acyclic
pub mod SourceMapping
pub mod HttpPolicy
mod Examples
