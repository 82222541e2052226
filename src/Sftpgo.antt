-- ===== src/Sftpgo.antt =====
-- internal/sftpgo/client.go
pub mod Json
pub mod Payload
pub mod Decode
pub mod Client
