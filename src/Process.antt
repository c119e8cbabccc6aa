-- ===== src/Process.antt =====
-- The processes of cmd/: their main functions.
pub mod Qsd
pub mod Stages
pub mod Service
pub mod Plugins
