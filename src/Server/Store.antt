-- ===== src/Server/Store.antt =====
-- The objects in the cluster, and what a server's reconcile leaves in it.
pub mod Reached
pub mod Rewrites
use sftpgo_operator.Base.{
  String, ◌==◌, if◌then◌else◌, ◌≡◌, ◌⊎◌, Option, none, some, List, Result, ok,
}
use sftpgo_operator.Api.Meta.{Kinds, NamespacedName, ObjectMeta, Condition}
use sftpgo_operator.Api.ServerTypes.{SftpGoServer, VolumeConfig}
use sftpgo_operator.Kube.Objects.{
  ConfigMap, PersistentVolumeClaim, Deployment, DeploymentSpec, Service, OperationResult, unchanged,
}
use sftpgo_operator.Kube.Env.{Env}
use sftpgo_operator.Server.Desired.{
  config_map_for_server, deployment_for_server, service_for_server, pvc_for_server,
}

pub record Objects (K : Kinds) : Type 0 where
  pub config_map : NamespacedName → Option (ConfigMap K)
  pub pvc : NamespacedName → Option (PersistentVolumeClaim K)
  pub deployment : NamespacedName → Option (Deployment K)
  pub service : NamespacedName → Option (Service K)

abbrev pub key_of : {K : Kinds} → ObjectMeta K → NamespacedName
key_of meta = record { namespace = meta.namespace; name = meta.name }

abbrev pub live_or : {A : Type 0} → A → Option A → A
live_or o none = o
live_or o (some live) = live

-- What controller-runtime documents of `CreateOrUpdate`, for objects of one type, and Kubernetes of
-- what it stores. The caller's function is run on the live object, or on the one handed in if there
-- is none. A success has sent what the function made, which is then stored as the API server admits
-- it, unless it is the live object; and only then is the result `unchanged`. `Admits sent kept` says
-- how what is stored goes by what was sent; an object that is stored would be admitted as it is.
pub record IsCreateOrUpdate {K : Kinds} {World A : Type 0} (view : World → Objects K)
    (stored : Objects K → NamespacedName → Option A) (SameOthers : Objects K → Objects K → Type 0)
    (key : A → NamespacedName) (Admits : A → A → Type 0)
    (create_or_update : A → (A → Result A) → World → Result (OperationResult × A) × World)
    : Type 0 where
  pub stores :
      (o : A) (f : A → Result A) (w : World) (r : OperationResult × A)
      → (create_or_update o f w).0 ≡ ok r
      → (sent kept : A) × (f (live_or o (stored (view w) (key o))) ≡ ok sent)
        × (stored (view (create_or_update o f w).1) (key o) ≡ some kept)
        × (((stored (view w) (key o) ≡ some sent) × (kept ≡ sent)) ⊎ Admits sent kept)
        × SameOthers (view w) (view (create_or_update o f w).1)
  pub reports :
      (o : A) (f : A → Result A) (w : World) (r : OperationResult × A)
      → (create_or_update o f w).0 ≡ ok r
      → r.0 ≡ unchanged
      → (live : A) × (stored (view w) (key o) ≡ some live) × (f live ≡ ok live)
  pub complete : (w : World) (k : NamespacedName) (a : A) → stored (view w) k ≡ some a → Admits a a

-- Of the metadata that is sent, the API server keeps what a client may set, and adds its own.
abbrev pub KeepsMeta : {K : Kinds} → ObjectMeta K → ObjectMeta K → Type 0
KeepsMeta sent kept =
    (kept.labels ≡ sent.labels)
    × (kept.annotations ≡ sent.annotations)
    × (kept.owner_references ≡ sent.owner_references)

-- The documented default of a Service's type.
abbrev pub service_type : String → String
service_type type = if type == "" then "ClusterIP" else type

-- A cluster in which these four types of objects can be seen, and are changed by `CreateOrUpdate`
-- alone.
pub record IsCluster {K : Kinds} (E : Env K) : Type 0 where
  pub view : E.World → Objects K
  -- the defaults of a Deployment's specification
  pub defaulted : DeploymentSpec K → DeploymentSpec K
  pub config_maps :
      IsCreateOrUpdate view
        (λ v. v.config_map)
        (λ v v'. v' ≡ record v { config_map = v'.config_map })
        (λ o. key_of o.meta)
        (λ sent kept. KeepsMeta sent.meta kept.meta × (kept.contents ≡ sent.contents))
        E.create_or_update_config_map
  pub pvcs :
      IsCreateOrUpdate view
        (λ v. v.pvc)
        (λ v v'. v' ≡ record v { pvc = v'.pvc })
        (λ o. key_of o.meta)
        (λ sent kept. KeepsMeta sent.meta kept.meta)
        E.create_or_update_pvc
  pub deployments :
      IsCreateOrUpdate view
        (λ v. v.deployment)
        (λ v v'. v' ≡ record v { deployment = v'.deployment })
        (λ o. key_of o.meta)
        (λ sent kept. KeepsMeta sent.meta kept.meta × (kept.spec ≡ defaulted sent.spec))
        E.create_or_update_deployment
  pub services :
      IsCreateOrUpdate view
        (λ v. v.service)
        (λ v v'. v' ≡ record v { service = v'.service })
        (λ o. key_of o.meta)
        (λ sent kept.
          KeepsMeta sent.meta kept.meta
          × (kept.spec.ports ≡ sent.spec.ports)
          × (kept.spec.selector ≡ sent.spec.selector)
          × (kept.spec.type ≡ service_type sent.spec.type))
        E.create_or_update_service
  pub get_deployment_view :
      (key : NamespacedName) (w : E.World) → view (E.get_deployment key w).1 ≡ view w
  pub update_server_status_view :
      (s : SftpGoServer K) (w : E.World) → view (E.update_server_status s w).1 ≡ view w
  pub set_status_condition_view :
      (cs : List Condition) (c : Condition) (w : E.World)
      → view (E.set_status_condition cs c w).1 ≡ view w

-- An object is in the cluster, with a property.
abbrev pub Present : {A : Type 0} → Option A → (A → Type 0) → Type 0
Present {A} o P = (a : A) × (o ≡ some a) × P a

module _ {K : Kinds} (E : Env K) (defaulted : DeploymentSpec K → DeploymentSpec K)
    (server : SftpGoServer K) where
  -- The owners are those that `SetControllerReference` gives for the server.
  abbrev pub IsOwned : ObjectMeta K → Type 0
  IsOwned meta =
      (before owned : ObjectMeta K) × (E.set_controller_reference server.meta before ≡ ok owned)
      × (meta.owner_references ≡ owned.owner_references)

  abbrev pub IsConfigMap : ConfigMap K → Type 0
  IsConfigMap a = (a.contents ≡ (config_map_for_server server).contents) × IsOwned a.meta

  abbrev pub IsDeployment : Deployment K → Type 0
  IsDeployment a = (a.spec ≡ defaulted (deployment_for_server server).spec) × IsOwned a.meta

  abbrev pub IsService : Service K → Type 0
  IsService a =
      (a.spec.ports ≡ (service_for_server server).spec.ports)
      × (a.spec.selector ≡ (service_for_server server).spec.selector)
      × (a.spec.type ≡ "ClusterIP")
      × IsOwned a.meta

  abbrev pub HasClaim :
      Option VolumeConfig → (NamespacedName → Option (PersistentVolumeClaim K)) → Type 0
  HasClaim none claims = Unit
  HasClaim (some v) claims =
      Present (claims (key_of (pvc_for_server E server v).meta)) (λ a. IsOwned a.meta)

  -- The objects that the server stands for are in the cluster, owned by it, with what it asks for
  -- and the defaults of the API server.
  pub record IsServed (v : Objects K) : Type 0 where
    pub config_map : Present (v.config_map (key_of (config_map_for_server server).meta)) IsConfigMap
    pub claim : HasClaim server.spec.data_volume v.pvc
    pub deployment :
        Present (v.deployment (key_of (deployment_for_server server).meta)) IsDeployment
    pub service : Present (v.service (key_of (service_for_server server).meta)) IsService
