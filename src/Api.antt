-- ===== src/Api.antt =====
-- The custom resources of api/v1alpha1, and the metadata that they share with all other objects.
pub mod Meta
pub mod ServerTypes
pub mod UserTypes
