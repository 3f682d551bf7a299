-- ===== src/Controller.antt =====
-- The controller service: pkg/smb/controllerserver.go.
pub mod Effects
pub mod Mount
pub mod Create
pub mod Delete
pub mod Requests
pub mod Lifecycle
