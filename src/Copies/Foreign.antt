-- ===== src/Copies/Foreign.antt =====
-- The types of Kubernetes in the custom resources, in memory, with their own deep copies.
use sftpgo_operator.Api.Meta.{Kinds, ObjectMeta, Condition, Time, SecretKeySelector}
use sftpgo_operator.Copies.Memory.{Copied}
use sftpgo_operator.Copies.Laws.{IsDeep}

pub record Kind (V : Type 0) : Type 1 where
  pub Memory : Type 0
  pub methods : Copied Memory V

pub record Foreign (K : Kinds) : Type 1 where
  pub ListMeta : Type 0
  pub list_meta : Kind ListMeta
  pub object_meta : Kind (ObjectMeta K)
  pub condition : Kind Condition
  pub time : Kind Time
  pub secret_key_selector : Kind SecretKeySelector
  pub resource_requirements : Kind K.ResourceRequirements
  pub toleration : Kind K.Toleration
  pub affinity : Kind K.Affinity

-- What apimachinery and k8s.io/api document of `DeepCopyInto`.
pub record IsForeignDeep {K : Kinds} (F : Foreign K) : Type 0 where
  pub list_meta : IsDeep F.list_meta.methods
  pub object_meta : IsDeep F.object_meta.methods
  pub condition : IsDeep F.condition.methods
  pub time : IsDeep F.time.methods
  pub secret_key_selector : IsDeep F.secret_key_selector.methods
  pub resource_requirements : IsDeep F.resource_requirements.methods
  pub toleration : IsDeep F.toleration.methods
  pub affinity : IsDeep F.affinity.methods
