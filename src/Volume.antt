-- ===== src/Volume.antt =====
-- The volume of pkg/smb/controllerserver.go: its record, its id, and its paths.
pub mod Defs
pub mod Params
pub mod Validation
pub mod Id
pub mod Order
pub mod Agreement
pub mod Paths
