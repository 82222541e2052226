-- ===== src/User.antt =====
-- internal/controller/sftpgouser_controller.go
pub mod Keys
pub mod Reconcile
pub mod Runs
pub mod Deletion
pub mod Writes
pub mod Delivered
pub mod Secrets
pub mod Live
