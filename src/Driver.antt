-- ===== src/Driver.antt =====
-- pkg/driver: the CSI driver.
pub mod Csi
pub mod State
pub mod Volumes
pub mod Snapshots
pub mod Node
pub mod Publish
pub mod Mounted
pub mod Identity
pub mod Run
pub mod Laws
pub mod OverServer
pub mod Created
pub mod Lifecycle
pub mod Calls
pub mod Sent
pub mod Kept
pub mod Refined
pub mod Mirrored
pub mod Twice
pub mod Known
