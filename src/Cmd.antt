-- ===== src/Cmd.antt =====
-- cmd/main.go
pub mod Slices
pub mod Main
pub mod Plan
pub mod Certificates
pub mod Exit
