-- ===== src/Server.antt =====
-- internal/controller/sftpgoserver_controller.go
pub mod Defaults
pub mod Config
pub mod Ports
pub mod Wiring
pub mod Desired
pub mod Reconcile
pub mod Runs
pub mod Mutate
pub mod Conditions
pub mod Applies
pub mod Store
