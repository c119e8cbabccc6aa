-- ===== src/Qsd/Graph.antt =====
-- What the QSD server promises of its images: a forest of backing images with reference counts,
-- and the few transitions by which it may change. The specification of pkg/qsd/server.go.
pub mod Children
pub mod Invariant
pub mod Change
pub mod Grow
pub mod Shrink
pub mod Preserve
pub mod Bounds
