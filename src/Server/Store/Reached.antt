-- ===== src/Server/Store/Reached.antt =====
-- The objects of a server after a reconcile that succeeds.
use sftpgo_operator.Base.{
  ◌≡◌, refl, ◌∙◌, ap, sym, subst, Option, none, some, Result, ok, Exec, ◌>>=◌, ◌>>◌, Result-cases,
  inl, inr, continue-pure, >>=_ok, >>-raise, ◌⊎◌, err-ne-ok, ok_inj, err,
}
use sftpgo_operator.Api.Meta.{Kinds, NamespacedName, ObjectMeta}
use sftpgo_operator.Api.ServerTypes.{SftpGoServer, SftpGoServerSpec, VolumeConfig}
use sftpgo_operator.Kube.Objects.{
  ConfigMap, PersistentVolumeClaim, Deployment, DeploymentStatus, Service, OperationResult,
}
use sftpgo_operator.Kube.Env.{Env}
use sftpgo_operator.Kube.Calls.{Run, Outcome, done}
use sftpgo_operator.Server.Defaults.{apply_defaults}
use sftpgo_operator.Server.Desired.{
  config_map_for_server, deployment_for_server, service_for_server,
}
use sftpgo_operator.Server.Reconcile.{
  with_meta, mutate_config_map, mutate_pvc, mutate_deployment, mutate_service, apply_config_map,
  apply_pvc, apply_deployment, apply_service, degrade, finish, read_deployment, reconcile_workload,
  reconcile_storage, reconcile_live,
}
use sftpgo_operator.Server.Store.{
  Objects, key_of, IsCreateOrUpdate, IsCluster, service_type, Present, IsOwned, IsConfigMap,
  IsDeployment, IsService, HasClaim, IsServed,
}

module _ {K : Kinds} (E : Env K) (cluster : IsCluster E) (server : SftpGoServer K) where
  abbrev at : Run E → Objects K
  at s = cluster.view s.world

  abbrev HasConfigMap : Objects K → Type 0
  HasConfigMap v =
      Present (v.config_map (key_of (config_map_for_server server).meta))
        (IsConfigMap E cluster.defaulted server)

  abbrev HasDeployment : Objects K → Type 0
  HasDeployment v =
      Present (v.deployment (key_of (deployment_for_server server).meta))
        (IsDeployment E cluster.defaulted server)

  abbrev HasService : Objects K → Type 0
  HasService v =
      Present (v.service (key_of (service_for_server server).meta))
        (IsService E cluster.defaulted server)

  -- What holds of an object as it is admitted holds of the one that a success leaves.
  stores-Present :
      {A : Type 0} {stored : Objects K → NamespacedName → Option A}
      {SameOthers : Objects K → Objects K → Type 0} {key : A → NamespacedName}
      {Admits : A → A → Type 0}
      {cou : A → (A → Result A) → E.World → Result (OperationResult × A) × E.World}
      → IsCreateOrUpdate cluster.view stored SameOthers key Admits cou
      → (P : A → Type 0) (o : A) (f : A → Result A) (w : E.World) (r : OperationResult × A)
      → ((live sent kept : A) → f live ≡ ok sent → Admits sent kept → P kept)
      → (cou o f w).0 ≡ ok r
      → Present (stored (cluster.view (cou o f w).1) (key o)) P
        × SameOthers (cluster.view w) (cluster.view (cou o f w).1)
  stores-Present {A} {stored = stored} {key = key} {Admits = Admits} laws P o f w r holds h =
      let (sent, kept, made, there, how, same) = laws.stores o f w r h in
      ((kept, there, holds _ sent kept made (admitted sent kept how)), same)
    where
      admitted :
          (sent kept : A)
          → ((stored (cluster.view w) (key o) ≡ some sent) × (kept ≡ sent)) ⊎ Admits sent kept
          → Admits sent kept
      admitted sent kept (inl (there, same)) =
          subst (λ x. Admits sent x) (sym same) (laws.complete w (key o) sent there)
      admitted sent kept (inr a) = a

  pub with_meta_ok :
      {A : Type 0} (r : Result (ObjectMeta K)) (f : ObjectMeta K → A) (a : A)
      → with_meta E r f ≡ ok a
      → (owned : ObjectMeta K) × (r ≡ ok owned) × (f owned ≡ a)
  with_meta_ok (ok owned) f a h = (owned, refl, ok_inj h)
  with_meta_ok (err e) f a h = absurd (err-ne-ok e a h)

  apply_config_map-HasConfigMap :
      (s : Run E) (r : OperationResult × ConfigMap K)
      → (apply_config_map E server s).0 ≡ ok r
      → HasConfigMap (at (apply_config_map E server s).1)
        × (at (apply_config_map E server s).1
            ≡ record (at s) { config_map = (at (apply_config_map E server s).1).config_map })
  unfolding apply_config_map mutate_config_map
  apply_config_map-HasConfigMap s r h =
      stores-Present cluster.config_maps (IsConfigMap E cluster.defaulted server) _ _ s.world r
        (λ live sent kept made (meta, contents).
          let (owned, k, is) = with_meta_ok _ _ sent made in
          (
            contents ∙ ap (λ x. x.contents) (sym is),
            (_, owned, k, meta.2 ∙ ap (λ x. x.meta.owner_references) (sym is)),
          ))
        h

  apply_pvc-HasClaim :
      (v : VolumeConfig) (s : Run E) (r : OperationResult × PersistentVolumeClaim K)
      → (apply_pvc E server v s).0 ≡ ok r
      → HasClaim E cluster.defaulted server (some v) (at (apply_pvc E server v s).1).pvc
        × (at (apply_pvc E server v s).1
            ≡ record (at s) { pvc = (at (apply_pvc E server v s).1).pvc })
  unfolding apply_pvc mutate_pvc
  apply_pvc-HasClaim v s r h =
      stores-Present cluster.pvcs (λ a. IsOwned E cluster.defaulted server a.meta) _ _ s.world r
        (λ live sent kept made meta.
          let (owned, k, is) = with_meta_ok _ _ sent made in
          (_, owned, k, meta.2 ∙ ap (λ x. x.meta.owner_references) (sym is)))
        h

  apply_deployment-HasDeployment :
      (s : Run E) (r : OperationResult × Deployment K)
      → (apply_deployment E server s).0 ≡ ok r
      → HasDeployment (at (apply_deployment E server s).1)
        × (at (apply_deployment E server s).1
            ≡ record (at s) { deployment = (at (apply_deployment E server s).1).deployment })
  unfolding apply_deployment mutate_deployment
  apply_deployment-HasDeployment s r h =
      stores-Present cluster.deployments (IsDeployment E cluster.defaulted server) _ _ s.world r
        (λ live sent kept made (meta, spec).
          let (owned, k, is) = with_meta_ok _ _ sent made in
          (
            spec ∙ ap (λ x. cluster.defaulted x.spec) (sym is),
            (_, owned, k, meta.2 ∙ ap (λ x. x.meta.owner_references) (sym is)),
          ))
        h

  apply_service-HasService :
      (s : Run E) (r : OperationResult × Service K)
      → (apply_service E server s).0 ≡ ok r
      → HasService (at (apply_service E server s).1)
        × (at (apply_service E server s).1
            ≡ record (at s) { service = (at (apply_service E server s).1).service })
  unfolding apply_service mutate_service service_for_server
  apply_service-HasService s r h =
      stores-Present cluster.services (IsService E cluster.defaulted server) _ _ s.world r
        (λ live sent kept made (meta, ports, selector, type).
          let (owned, k, is) = with_meta_ok _ _ sent made in
          (
            ports ∙ ap (λ x. x.spec.ports) (sym is),
            selector ∙ ap (λ x. x.spec.selector) (sym is),
            type ∙ ap (λ x. service_type x.spec.type) (sym is),
            (_, owned, k, meta.2 ∙ ap (λ x. x.meta.owner_references) (sym is)),
          ))
        h

  finish_view :
      (spec : SftpGoServerSpec K) (d : DeploymentStatus) (s : Run E)
      → at (finish E server spec d s).1 ≡ at s
  unfolding finish
  finish_view spec d s =
      ap {A = Run E} at (continue-pure _ done _)
      ∙ cluster.update_server_status_view _ _
      ∙ cluster.set_status_condition_view _ _ _

  abbrev pub to_service : Exec (Run E) Outcome
  to_service = do
    deployment ←
        read_deployment E (record { namespace = server.meta.namespace; name = server.meta.name })
    apply_service E server
    finish E server (apply_defaults server) deployment.status

  to_service-HasService :
      (s : Run E) (o : Outcome)
      → (to_service s).0 ≡ ok o
      → HasService (at (to_service s).1)
        × (at (to_service s).1 ≡ record (at s) { service = (at (to_service s).1).service })
  to_service-HasService s o h =
      let read =
        read_deployment E (record { namespace = server.meta.namespace; name = server.meta.name }) in
      let (d, k, p) = >>=_ok read _ s h in
      let (r, k', p') = >>=_ok (apply_service E server) _ (read s).1 (ap (λ x. x.0) (sym p) ∙ h) in
      let (served, same) = apply_service-HasService (read s).1 r k' in
      let end = ap (λ x. at x.1) (p ∙ p') ∙ finish_view (apply_defaults server) d.status _ in
      (
        subst (λ v. HasService v) (sym end) served,
        end
            ∙ same
            ∙ ap {A = Objects K}
                (λ v. record v { service = (at (apply_service E server (read s).1).1).service })
                (cluster.get_deployment_view _ _)
            ∙ ap {A = Objects K} (λ v. record (at s) { service = v.service }) (sym end),
      )

  all-IsServed :
      (v₀ v₁ v₂ : Objects K)
      → HasConfigMap v₀
      → HasClaim E cluster.defaulted server server.spec.data_volume v₀.pvc
      → HasDeployment v₁ × (v₁ ≡ record v₀ { deployment = v₁.deployment })
      → HasService v₂ × (v₂ ≡ record v₁ { service = v₂.service })
      → IsServed E cluster.defaulted server v₂
  all-IsServed v₀ v₁ v₂ config claim (deployed, p) (served, q) = record {
    config_map = subst HasConfigMap (sym q) (subst HasConfigMap (sym p) config);
    claim =
        let Claims : Objects K → Type 0 =
          λ v. HasClaim E cluster.defaulted server server.spec.data_volume v.pvc in
        subst Claims (sym q) (subst Claims (sym p) claim);
    deployment = subst HasDeployment (sym q) deployed;
    service = served;
  }

  workload-IsServed :
      (s : Run E) (o : Outcome)
      → HasConfigMap (at s)
      → HasClaim E cluster.defaulted server server.spec.data_volume (at s).pvc
      → (reconcile_workload E server (apply_defaults server) s).0 ≡ ok o
      → IsServed E cluster.defaulted server
          (at (reconcile_workload E server (apply_defaults server) s).1)
  unfolding reconcile_workload
  workload-IsServed s o config claim h = elim (Result-cases (apply_deployment E server s).0) [
    | inr (e, k) ↦
        absurd (>>-raise (degrade E server "DeploymentError" e.message) e _ _ (rw k at h))
    | inl (r, k) ↦ rw k (
        all-IsServed (at s) (at (apply_deployment E server s).1) _ config claim
          (apply_deployment-HasDeployment s r k) (to_service-HasService _ o (rw k at h)))
  ]

  storage-IsServed :
      (volume : Option VolumeConfig) (s : Run E) (o : Outcome)
      → server.spec.data_volume ≡ volume
      → HasConfigMap (at s)
      → (reconcile_storage E server (apply_defaults server) volume s).0 ≡ ok o
      → IsServed E cluster.defaulted server
          (at (reconcile_storage E server (apply_defaults server) volume s).1)
  unfolding reconcile_storage
  storage-IsServed none s o p config h = workload-IsServed s o config (rw p tt) h
  storage-IsServed (some v) s o p config h =
      let (r, k, q) = >>=_ok (apply_pvc E server v) _ s h in
      let (claim, same) = apply_pvc-HasClaim v s r k in
      let settled =
        workload-IsServed _ o (subst HasConfigMap (sym same) config)
          (subst (λ d. HasClaim E cluster.defaulted server d (at (apply_pvc E server v s).1).pvc)
            (sym p) claim)
          (ap (λ x. x.0) (sym q) ∙ h) in
      subst (λ x. IsServed E cluster.defaulted server (at x.1)) (sym q) settled

  -- Where `CreateOrUpdate` does as documented, over an API server that admits objects as documented:
  -- a reconcile of a live server that returns without an error leaves in the cluster the ConfigMap
  -- with the contents wanted, the Deployment with the specification wanted and its defaults, the
  -- Service with the ports and the selector wanted and the type "ClusterIP", and, where a data
  -- volume is asked for, its claim, each with the owners that `SetControllerReference` gives.
  pub reconcile_live-IsServed :
      (s : Run E) (o : Outcome)
      → (reconcile_live E server s).0 ≡ ok o
      → IsServed E cluster.defaulted server (at (reconcile_live E server s).1)
  unfolding reconcile_live apply_defaults
  reconcile_live-IsServed s o h = elim (Result-cases (apply_config_map E server s).0) [
    | inr (e, k) ↦ absurd (>>-raise (degrade E server "ConfigMapError" e.message) e _ _ (rw k at h))
    | inl (r, k) ↦ rw k (
        storage-IsServed server.spec.data_volume _ o refl (apply_config_map-HasConfigMap s r k).0
          (rw k at h))
  ]
