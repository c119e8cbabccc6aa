-- ===== src/Qsd/Server.antt =====
-- pkg/qsd/server.go: the handlers of the QSD gRPC server.
pub mod State
pub mod Delete
pub mod Create
pub mod Export
pub mod Snapshots
pub mod Effect
pub mod Names
pub mod Layers
pub mod Undo
pub mod RoundTrip
pub mod Released
