-- ===== src/Api/Meta.antt =====
-- The types of k8s.io/apimachinery and k8s.io/api that both custom resources are made of. Types of
-- which the operator only hands values on are left open.
use sftpgo_operator.Base.{ℕ, String, Option, List}
use sftpgo_operator.Base.Text.{Dict}

pub record Kinds : Type 1 where
  pub ResourceRequirements : Type 0
  pub Toleration : Type 0
  pub Affinity : Type 0
  pub Quantity : Type 0
  pub OwnerReference : Type 0

-- An instant, in nanoseconds since the zero `time.Time`.
abbrev pub Time : Type 0
Time = ℕ

pub record NamespacedName : Type 0 where
  pub namespace : String
  pub name : String

pub record ObjectMeta (K : Kinds) : Type 0 where
  pub name : String
  pub namespace : String
  pub uid : String
  pub resource_version : String
  pub labels : Dict String
  pub annotations : Dict String
  pub owner_references : List K.OwnerReference
  pub finalizers : List String
  pub deletion_timestamp : Option Time

-- `metav1.ConditionStatus`
pub data ConditionStatus : Type 0 where
  condition_true condition_false condition_unknown : ConditionStatus

pub record Condition : Type 0 where
  pub type : String
  pub status : ConditionStatus
  pub reason : String
  pub message : String
  pub last_transition_time : Time

pub record LocalObjectReference : Type 0 where
  pub name : String

pub record SecretKeySelector : Type 0 where
  pub name : String
  pub key : String

-- A `corev1.Secret`, of which the program reads the data.
pub record Secret : Type 0 where
  pub contents : Dict String

module _ {K : Kinds} where
  -- The metadata of an object literal that gives a name and a namespace.
  abbrev pub named : String → String → ObjectMeta K
  named n ns = record {
    name = n;
    namespace = ns;
    uid = "";
    resource_version = "";
    labels = List.[];
    annotations = List.[];
    owner_references = List.[];
    finalizers = List.[];
    deletion_timestamp = Option.none;
  }
