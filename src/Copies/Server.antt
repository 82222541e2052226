-- ===== src/Copies/Server.antt =====
-- The deep copies of the structs of api/v1alpha1/sftpgoserver_types.go.
pub mod Types
pub mod Methods
pub mod Laws
