-- ===== src/Tests.antt =====
-- Runs of the model, and the theorems at concrete inputs.
mod Hosts
mod Server
mod Driver
mod Metadata
mod Client
mod Volumes
mod Sizes
mod Node
mod Mounts
mod RoundTrips
mod Waits
mod Processes
mod Calls
mod Nodes
mod Daemon
