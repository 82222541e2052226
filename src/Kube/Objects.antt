-- ===== src/Kube/Objects.antt =====
-- The objects of k8s.io/api that the server controller builds, with the fields that it sets or
-- reads, and a field that it leaves to the cluster where the proofs speak of one.
use sftpgo_operator.Base.{String, Bool, Option, List, ℤ}
use sftpgo_operator.Base.Text.{Dict}
use sftpgo_operator.Api.Meta.{Kinds, ObjectMeta, SecretKeySelector}

pub record ConfigMap (K : Kinds) : Type 0 where
  pub meta : ObjectMeta K
  pub contents : Dict String

pub record PersistentVolumeClaimSpec (K : Kinds) : Type 0 where
  pub access_modes : List String
  -- `Resources.Requests[ResourceStorage]`
  pub storage_request : K.Quantity
  pub storage_class_name : Option String
  -- bound by the cluster
  pub volume_name : String

pub record PersistentVolumeClaim (K : Kinds) : Type 0 where
  pub meta : ObjectMeta K
  pub spec : PersistentVolumeClaimSpec K

pub data VolumeSource : Type 0 where
  config_map : String → VolumeSource
  persistent_volume_claim : String → VolumeSource
  empty_dir : VolumeSource

pub record Volume : Type 0 where
  pub name : String
  pub source : VolumeSource

pub record VolumeMount : Type 0 where
  pub name : String
  pub mount_path : String
  pub read_only : Bool

pub record EnvVar : Type 0 where
  pub name : String
  pub secret_key_ref : SecretKeySelector

pub record ContainerPort : Type 0 where
  pub name : String
  pub container_port : ℤ
  pub protocol : String

pub record Container (K : Kinds) : Type 0 where
  pub name : String
  pub image : String
  pub image_pull_policy : String
  pub args : List String
  pub ports : List ContainerPort
  pub volume_mounts : List VolumeMount
  pub env : List EnvVar
  pub resources : Option K.ResourceRequirements

pub record PodSpec (K : Kinds) : Type 0 where
  pub service_account_name : String
  pub containers : List (Container K)
  pub volumes : List Volume
  pub node_selector : Dict String
  pub tolerations : List K.Toleration
  pub affinity : Option K.Affinity

pub record DeploymentSpec (K : Kinds) : Type 0 where
  pub replicas : Option ℤ
  pub selector : Dict String
  pub template_labels : Dict String
  pub pod : PodSpec K

pub record DeploymentStatus : Type 0 where
  pub replicas : ℤ
  pub ready_replicas : ℤ

pub record Deployment (K : Kinds) : Type 0 where
  pub meta : ObjectMeta K
  pub spec : DeploymentSpec K
  pub status : DeploymentStatus

pub record ServicePort : Type 0 where
  pub name : String
  pub port : ℤ
  pub target_port : ℤ
  pub protocol : String

pub record ServiceSpec : Type 0 where
  pub selector : Dict String
  pub ports : List ServicePort
  pub type : String
  -- given by the cluster
  pub cluster_ip : String

pub record Service (K : Kinds) : Type 0 where
  pub meta : ObjectMeta K
  pub spec : ServiceSpec

-- `controllerutil.OperationResult`
pub data OperationResult : Type 0 where
  unchanged created updated : OperationResult
