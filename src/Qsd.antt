-- ===== src/Qsd.antt =====
-- pkg/qsd: the gRPC server in front of the qemu-storage-daemon.
pub mod Message
pub mod Commands
pub mod Server
pub mod Graph
pub mod Requests
pub mod Daemon
