-- ===== src/Qsd/Server/Effect.antt =====
-- What the handlers leave in the tables of the server, whatever the host answers.
pub mod Deletion
pub mod Recursion
pub mod Creation
pub mod Overlay
pub mod Removal
pub mod Held
pub mod Volumes
pub mod Given
pub mod Cleared
pub mod Served
pub mod Added
pub mod Returns
