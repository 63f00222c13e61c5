-- ===== src/Cloud.antt =====
-- Cloud shares, of src/handlers/cloud_share.rs.
pub mod Names
pub mod World
pub mod Multipart
pub mod Secrets
pub mod Storage
pub mod Access
pub mod Policy
pub mod Create
pub mod Complete
pub mod Cleanup
pub mod Plans
pub mod Examples
