-- ===== src/Qsd/Commands.antt =====
-- pkg/qsd/commands.go: the volume manager, which turns block operations into qemu-img calls and
-- QMP commands.
pub mod Json
pub mod Manager
pub mod Size
pub mod Units
pub mod Wait
pub mod Nodes
