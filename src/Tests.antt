-- ===== src/Tests.antt =====
-- A small cluster with an SFTPGo behind it, and the theorems at concrete inputs.
pub mod World
pub mod Samples
mod Server
mod User
mod Client
mod Cmd
pub mod Objects
mod Store
mod Copies
mod Service
