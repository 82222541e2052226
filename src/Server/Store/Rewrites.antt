-- ===== src/Server/Store/Rewrites.antt =====
-- What a reconcile that succeeds sends of objects that have all that it asks for.
use sftpgo_operator.Base.{
  ◌≡◌, ◌≢◌, ◌∙◌, ap, sym, subst, Option, none, some, List, [], ◌∷◌, Result, ok, Result-cases, inl,
  inr, continue-pure, >>=_ok, >>-raise, arith, eq_iff, String,
}
use sftpgo_operator.Api.Meta.{Kinds}
use sftpgo_operator.Api.ServerTypes.{SftpGoServer, SftpGoServerSpec, VolumeConfig}
use sftpgo_operator.Kube.Objects.{
  Deployment, DeploymentSpec, DeploymentStatus, Service, OperationResult, unchanged,
}
use sftpgo_operator.Kube.Env.{Env}
use sftpgo_operator.Kube.Calls.{
  Run, Event, put_server_status, applied_deployment, applied_service, Outcome, done,
}
use sftpgo_operator.Server.Defaults.{apply_defaults}
use sftpgo_operator.Server.Desired.{deployment_for_server, service_for_server}
use sftpgo_operator.Server.Reconcile.{
  mutate_deployment, mutate_service, apply_config_map, apply_pvc, apply_deployment, apply_service,
  degrade, finish, read_deployment, reconcile_workload, reconcile_storage, reconcile_live,
}
use sftpgo_operator.Server.Store.{IsCluster, service_type}
use sftpgo_operator.Server.Store.Reached.{with_meta_ok, to_service}

module _ {K : Kinds} where
  -- What the calls of a trace report that had a Deployment, or a Service, created or updated.
  abbrev pub deployment_results : List (Event K) → List OperationResult
  deployment_results [] = []
  deployment_results (applied_deployment o (ok r) ∷ t) = r.0 ∷ deployment_results t
  deployment_results (_ ∷ t) = deployment_results t

  abbrev pub service_results : List (Event K) → List OperationResult
  service_results [] = []
  service_results (applied_service o (ok r) ∷ t) = r.0 ∷ service_results t
  service_results (_ ∷ t) = service_results t

module _ {K : Kinds} (E : Env K) (cluster : IsCluster E) (server : SftpGoServer K) where
  abbrev wanted : DeploymentSpec K
  wanted = (deployment_for_server server).spec

  type_rests : (t : String) → t ≡ "" → t ≢ service_type t
  type_rests t h k = ground (arith, eq_iff t "", eq_iff "ClusterIP" "")

  apply_service-changes :
      (s : Run E) (r : OperationResult × Service K)
      → (apply_service E server s).0 ≡ ok r
      → r.0 ≢ unchanged
  unfolding apply_service mutate_service service_for_server
  apply_service-changes s r h k =
      let (live, there, rests) = cluster.services.reports _ _ s.world r h k in
      let (owned, _, is) = with_meta_ok E cluster server _ _ live rests in
      type_rests live.spec.type (ap (λ x. x.spec.type) (sym is))
        (cluster.services.complete s.world _ live there).3

  apply_deployment-rests :
      (s : Run E) (r : OperationResult × Deployment K)
      → (apply_deployment E server s).0 ≡ ok r
      → r.0 ≡ unchanged
      → cluster.defaulted wanted ≡ wanted
  unfolding apply_deployment mutate_deployment
  apply_deployment-rests s r h k =
      let (live, there, rests) = cluster.deployments.reports _ _ s.world r h k in
      let (owned, _, is) = with_meta_ok E cluster server _ _ live rests in
      let spec : wanted ≡ live.spec = ap (λ x. x.spec) is in
      ap cluster.defaulted spec
      ∙ sym (cluster.deployments.complete s.world _ live there).1
      ∙ sym spec

  -- A run reports one Deployment and one Service, and that they change.
  abbrev Rewrites : List (Event K) → List (Event K) → Type 0
  Rewrites t t' =
      (x y : OperationResult) × (deployment_results t' ≡ x ∷ deployment_results t)
      × (service_results t' ≡ y ∷ service_results t)
      × (x ≡ unchanged → cluster.defaulted wanted ≡ wanted)
      × (y ≢ unchanged)

  finish_trace :
      (spec : SftpGoServerSpec K) (d : DeploymentStatus) (s : Run E)
      → (reported : SftpGoServer K) × (r : Result (Unit {0})) × ((finish E server spec d s).1.trace
          ≡ put_server_status reported r ∷ s.trace)
  unfolding finish
  finish_trace spec d s = (_, _, ap {A = Run E} (λ x. x.trace) (continue-pure _ done _))

  apply_service_trace :
      (s : Run E) (r : OperationResult × Service K)
      → (apply_service E server s).0 ≡ ok r
      → (apply_service E server s).1.trace
        ≡ applied_service (service_for_server server) (ok r) ∷ s.trace
  unfolding apply_service
  apply_service_trace s r h = ap (λ x. applied_service (service_for_server server) x ∷ s.trace) h

  apply_deployment_trace :
      (s : Run E) (r : OperationResult × Deployment K)
      → (apply_deployment E server s).0 ≡ ok r
      → (apply_deployment E server s).1.trace
        ≡ applied_deployment (deployment_for_server server) (ok r) ∷ s.trace
  unfolding apply_deployment
  apply_deployment_trace s r h =
      ap (λ x. applied_deployment (deployment_for_server server) x ∷ s.trace) h

  to_service-results :
      (s : Run E) (o : Outcome)
      → (to_service E cluster server s).0 ≡ ok o
      → (y : OperationResult) × (deployment_results (to_service E cluster server s).1.trace
          ≡ deployment_results s.trace)
        × (service_results (to_service E cluster server s).1.trace ≡ y ∷ service_results s.trace)
        × (y ≢ unchanged)
  to_service-results s o h =
      let read =
        read_deployment E (record { namespace = server.meta.namespace; name = server.meta.name }) in
      let (d, k, p) = >>=_ok read _ s h in
      let (r, k', p') = >>=_ok (apply_service E server) _ (read s).1 (ap (λ x. x.0) (sym p) ∙ h) in
      let (reported, u, end) =
        finish_trace (apply_defaults server) d.status (apply_service E server (read s).1).1 in
      let all : (to_service E cluster server s).1.trace
          ≡ put_server_status reported u
            ∷ applied_service (service_for_server server) (ok r)
            ∷ (read s).1.trace =
        ap (λ x. x.1.trace) (p ∙ p')
        ∙ end
        ∙ ap (λ t. put_server_status reported u ∷ t) (apply_service_trace (read s).1 r k') in
      (
        r.0,
        ap deployment_results all,
        ap service_results all,
        apply_service-changes (read s).1 r k',
      )

  workload-Rewrites :
      (s : Run E) (o : Outcome)
      → (reconcile_workload E server (apply_defaults server) s).0 ≡ ok o
      → Rewrites s.trace (reconcile_workload E server (apply_defaults server) s).1.trace
  unfolding reconcile_workload
  workload-Rewrites s o h = elim (Result-cases (apply_deployment E server s).0) [
    | inr (e, k) ↦
        absurd (>>-raise (degrade E server "DeploymentError" e.message) e _ _ (rw k at h))
    | inl (r, k) ↦ rw k (
        let (y, d, v, changes) = to_service-results (apply_deployment E server s).1 o (rw k at h) in
        let here = apply_deployment_trace s r k in
        (
          r.0,
          y,
          d ∙ ap deployment_results here,
          v ∙ ap (λ t. y ∷ service_results t) here,
          apply_deployment-rests s r k,
          changes,
        ))
  ]

  storage-Rewrites :
      (volume : Option VolumeConfig) (s : Run E) (o : Outcome)
      → (reconcile_storage E server (apply_defaults server) volume s).0 ≡ ok o
      → Rewrites s.trace (reconcile_storage E server (apply_defaults server) volume s).1.trace
  unfolding reconcile_storage apply_pvc
  storage-Rewrites none s o h = workload-Rewrites s o h
  storage-Rewrites (some v) s o h =
      let (r, k, q) = >>=_ok (apply_pvc E server v) _ s h in
      subst (λ x. Rewrites s.trace x.1.trace) (sym q)
        (workload-Rewrites (apply_pvc E server v s).1 o (ap (λ x. x.0) (sym q) ∙ h))

  reconcile_live-Rewrites :
      (s : Run E) (o : Outcome)
      → (reconcile_live E server s).0 ≡ ok o
      → Rewrites s.trace (reconcile_live E server s).1.trace
  unfolding reconcile_live apply_defaults apply_config_map
  reconcile_live-Rewrites s o h = elim (Result-cases (apply_config_map E server s).0) [
    | inr (e, k) ↦ absurd (>>-raise (degrade E server "ConfigMapError" e.message) e _ _ (rw k at h))
    | inl (r, k) ↦ rw k (storage-Rewrites server.spec.data_volume _ o (rw k at h))
  ]

  -- Where `CreateOrUpdate` does as documented, over an API server that admits objects as documented:
  -- each reconcile of a live server that returns without an error has one Service created or
  -- updated, and none reports that it is unchanged, however the Service was found.
  pub reconcile_live-rewrites_service :
      (s : Run E) (o : Outcome)
      → (reconcile_live E server s).0 ≡ ok o
      → (r : OperationResult) × (service_results (reconcile_live E server s).1.trace
          ≡ r ∷ service_results s.trace)
        × (r ≢ unchanged)
  reconcile_live-rewrites_service s o h =
      let (x, y, d, v, rests, changes) = reconcile_live-Rewrites s o h in (y, v, changes)

  -- Under the same conditions, if the API server fills in a default in the specification that the
  -- server asks for: each such reconcile has one Deployment created or updated, and none reports
  -- that it is unchanged.
  pub reconcile_live-rewrites_deployment :
      cluster.defaulted wanted ≢ wanted
      → (s : Run E) (o : Outcome) → (reconcile_live E server s).0 ≡ ok o
      → (r : OperationResult) × (deployment_results (reconcile_live E server s).1.trace
          ≡ r ∷ deployment_results s.trace)
        × (r ≢ unchanged)
  reconcile_live-rewrites_deployment fills s o h =
      let (x, y, d, v, rests, changes) = reconcile_live-Rewrites s o h in
      (x, d, λ k. fills (rests k))
