-- ===== src/Node.antt =====
-- The node service: pkg/smb/nodeserver.go, with the parts of smb.go and of the files for each
-- operating system that it calls.
pub mod Mounter
pub mod Kerberos
pub mod Context
pub mod Stage
pub mod Publish
pub mod Info
pub mod Stats
