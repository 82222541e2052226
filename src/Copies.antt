-- ===== src/Copies.antt =====
-- api/v1alpha1/zz_generated.deepcopy.go: the deep copies of the custom resources.
pub mod Memory
pub mod Laws
pub mod Foreign
pub mod Separate
pub mod Server
pub mod User
pub mod Defaults
pub mod Objects
