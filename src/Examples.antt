-- ===== src/Examples.antt =====
-- Runs of the model on concrete inputs.
mod World
mod Volumes
mod Driver
mod Deletion
mod Lifecycle
mod Requests
mod References
mod Mappings
mod Caches
mod Proxied
mod Startup
mod Overlap
mod HostProcess
mod Beta
mod Mounts
