-- ===== src/Client.antt =====
-- cmd/qsd-client: the command line client of the QSD server.
pub mod Commands
pub mod Tree
pub mod Drawn
pub mod Nested
pub mod Forest
pub mod Standing
pub mod Root
