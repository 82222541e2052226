-- ===== src/Server/Runs.antt =====
-- The order of a reconcile of a live server, as a system of steps: which objects have been applied
-- when the next one is, and how a run ends.
use sftpgo_operator.Base.{
  String, ◌≡◌, refl, Option, none, some, List, ◌∷◌, pos, Error, Result, ok, err, pure, continue,
  ◌>>=◌, ◌>>◌, inl, inr, is_positive, if◌then◌else◌, arith, Result-cases,
}
use sftpgo_operator.Api.Meta.{Kinds, NamespacedName, Condition, condition_true}
use sftpgo_operator.Api.ServerTypes.{SftpGoServer, VolumeConfig}
use sftpgo_operator.Kube.Objects.{
  ConfigMap, PersistentVolumeClaim, Deployment, Service, OperationResult,
}
use sftpgo_operator.Kube.Env.{Env}
use sftpgo_operator.Kube.Calls.{
  Run, Event, got_deployment, put_server_status, applied_config_map, applied_pvc,
  applied_deployment, applied_service, Outcome, done, condition,
}
use sftpgo_operator.Server.Defaults.{apply_defaults, get_sftp_port, get_web_port}
use sftpgo_operator.Server.Desired.{
  config_map_for_server, deployment_for_server, service_for_server, pvc_for_server,
}
use sftpgo_operator.Server.Reconcile.{
  degrade, apply_config_map, apply_pvc, apply_deployment, apply_service, finish, with_replicas,
  read_deployment, reconcile_workload, reconcile_storage, reconcile_live,
}

module _ {K : Kinds} (E : Env K) (server : SftpGoServer K) where
  -- The ConfigMap is applied, and the claim where a data volume is asked for.
  pub data Stored (old : List (Event K)) : List (Event K) → Type 0 where
    config_only :
        {r : OperationResult × ConfigMap K}
        → server.spec.data_volume ≡ none
        → Stored old (applied_config_map (config_map_for_server server) (ok r) ∷ old)
    with_claim :
        {r : OperationResult × ConfigMap K} {v : VolumeConfig}
        {q : OperationResult × PersistentVolumeClaim K}
        → server.spec.data_volume ≡ some v
        → Stored old (
            applied_pvc (pvc_for_server E server v) (ok q)
            ∷ applied_config_map (config_map_for_server server) (ok r)
            ∷ old)

  -- After these the Deployment.
  pub data Deployed (old : List (Event K)) : List (Event K) → Type 0 where
    deployed :
        {t : List (Event K)} {r : OperationResult × Deployment K}
        → Stored old t
        → Deployed old (applied_deployment (deployment_for_server server) (ok r) ∷ t)

  abbrev own_key : NamespacedName
  own_key = record { namespace = server.meta.namespace; name = server.meta.name }

  -- After it, read back as `d`, the Service.
  pub data Served (old : List (Event K)) (d : Deployment K) : List (Event K) → Type 0 where
    served :
        {t : List (Event K)} {r : OperationResult × Service K}
        → Deployed old t
        → Served old d
            (applied_service (service_for_server server) (ok r) ∷ got_deployment own_key (ok d) ∷ t)

  abbrev pub ready : Condition
  ready = condition "Ready" condition_true "Reconciled" ""

  -- What a status says once everything is applied, and the Deployment is read back as `d`: the
  -- replicas are those of `d`, if it has any, and otherwise stay as they were.
  pub record IsRunning (d : Deployment K) (final : SftpGoServer K) : Type 0 where
    pub phase : final.status.phase ≡ "Running"
    pub sftp : final.status.ports.sftp ≡ get_sftp_port (apply_defaults server)
    pub web : final.status.ports.web ≡ get_web_port (apply_defaults server)
    pub http : final.status.ports.http ≡ get_web_port (apply_defaults server)
    pub ftp : final.status.ports.ftp ≡ pos 0
    pub replicas :
        final.status.replicas
        ≡ (if is_positive d.status.replicas then d.status.replicas else server.status.replicas)
    pub ready_replicas : final.status.ready_replicas ≡ (
        if is_positive d.status.replicas
        then d.status.ready_replicas
        else server.status.ready_replicas)
    -- the conditions are the server's, with "Ready" set
    pub conditions :
        (w : E.World) × (final.status.conditions
          ≡ (E.set_status_condition server.status.conditions ready w).0)
    pub same_spec : final.spec ≡ server.spec
    pub same_meta : final.meta ≡ server.meta

  -- What a status says once a step has failed: what it said before, with "Degraded" set.
  abbrev pub IsDegraded : String → Error → SftpGoServer K → Type 0
  IsDegraded reason e m =
      (w : E.World) × (m ≡ record server {
        status = record server.status {
          conditions =
              (E.set_status_condition server.status.conditions
                (condition "Degraded" condition_true reason e.message) w).0;
        };
      })

  -- The ways for a run to end, with its result: everything done, or an error at the first step that
  -- failed, with no step after it but the report of a failed ConfigMap or Deployment.
  pub data Ended (old : List (Event K)) : Result Outcome → List (Event K) → Type 0 where
    finished :
        {d : Deployment K} {t : List (Event K)} {final : SftpGoServer K}
        → Served old d t
        → IsRunning d final
        → Ended old (ok done) (put_server_status final (ok tt) ∷ t)
    unreported :
        {d : Deployment K} {t : List (Event K)} {final : SftpGoServer K} {e : Error}
        → Served old d t
        → IsRunning d final
        → Ended old (err e) (put_server_status final (err e) ∷ t)
    service_failed :
        {d : Deployment K} {t : List (Event K)} {e : Error}
        → Deployed old t
        → Ended old (err e) (
            applied_service (service_for_server server) (err e) ∷ got_deployment own_key (ok d) ∷ t)
    unread :
        {t : List (Event K)} {e : Error}
        → Deployed old t
        → Ended old (err e) (got_deployment own_key (err e) ∷ t)
    deployment_failed :
        {t : List (Event K)} {m : SftpGoServer K} {reply : Result (Unit {0})} {e : Error}
        → Stored old t
        → IsDegraded "DeploymentError" e m
        → Ended old (err e) (
            put_server_status m reply
            ∷ applied_deployment (deployment_for_server server) (err e)
            ∷ t)
    claim_failed :
        {v : VolumeConfig} {r : OperationResult × ConfigMap K} {e : Error}
        → server.spec.data_volume ≡ some v
        → Ended old (err e) (
            applied_pvc (pvc_for_server E server v) (err e)
            ∷ applied_config_map (config_map_for_server server) (ok r)
            ∷ old)
    config_failed :
        {m : SftpGoServer K} {reply : Result (Unit {0})} {e : Error}
        → IsDegraded "ConfigMapError" e m
        → Ended old (err e) (
            put_server_status m reply
            ∷ applied_config_map (config_map_for_server server) (err e)
            ∷ old)

  module _ (s : Run E) where
    apply_config_map-trace :
        (apply_config_map E server s).1.trace
        ≡ applied_config_map (config_map_for_server server) (apply_config_map E server s).0
          ∷ s.trace
    unfolding apply_config_map
    apply_config_map-trace = refl

    apply_pvc-trace :
        (v : VolumeConfig)
        → (apply_pvc E server v s).1.trace
          ≡ applied_pvc (pvc_for_server E server v) (apply_pvc E server v s).0 ∷ s.trace
    unfolding apply_pvc
    apply_pvc-trace v = refl

    apply_deployment-trace :
        (apply_deployment E server s).1.trace
        ≡ applied_deployment (deployment_for_server server) (apply_deployment E server s).0
          ∷ s.trace
    unfolding apply_deployment
    apply_deployment-trace = refl

    apply_service-trace :
        (apply_service E server s).1.trace
        ≡ applied_service (service_for_server server) (apply_service E server s).0 ∷ s.trace
    unfolding apply_service
    apply_service-trace = refl

  module _ (old : List (Event K)) where
    -- The status update is the last step, and its answer the answer of the run.
    continue-Ended :
        {d : Deployment K} {t : List (Event K)} {final : SftpGoServer K} (r : Result (Unit {0}))
        (s : Run E)
        → Served old d t
        → IsRunning d final
        → s.trace ≡ put_server_status final r ∷ t
        → Ended old (continue r (λ _. pure done) s).0 (continue r (λ _. pure done) s).1.trace
    continue-Ended (ok tt) s x running h = rw h (finished x running)
    continue-Ended (err e) s x running h = rw h (unreported x running)

    finish-Ended :
        (d : Deployment K) (s : Run E)
        → Served old d s.trace
        → Ended old
            (finish E server (apply_defaults server) d.status s).0
            (finish E server (apply_defaults server) d.status s).1.trace
    unfolding finish
    finish-Ended d s x = continue-Ended _ _ x running refl
      where
        final : SftpGoServer K
        final = with_replicas E d.status (record server {
          status = record server.status {
            conditions = (E.set_status_condition server.status.conditions ready s.world).0;
            phase = "Running";
            ports = record {
              sftp = get_sftp_port (apply_defaults server);
              web = get_web_port (apply_defaults server);
              http = get_web_port (apply_defaults server);
              ftp = pos 0;
            };
          };
        })

        running : IsRunning d final
        running = record {
          phase = ground arith;
          sftp = ground arith;
          web = ground arith;
          http = ground arith;
          ftp = ground arith;
          replicas = ground arith;
          ready_replicas = ground arith;
          conditions = (s.world, ground arith);
          same_spec = ground arith;
          same_meta = ground arith;
        }

    workload_from_deployment :
        (s : Run E)
        → Deployed old s.trace
        → let m = (do
          deployment ← read_deployment E own_key
          apply_service E server
          finish E server (apply_defaults server) deployment.status) in
          Ended old (m s).0 (m s).1.trace
    workload_from_deployment s x = elim (Result-cases (E.get_deployment own_key s.world).0) [
      | inr (e, h) ↦ rw h (unread x)
      | inl (d, h) ↦
          let s' : Run E = record {
            world = (E.get_deployment own_key s.world).1;
            trace = got_deployment own_key (ok d) ∷ s.trace;
          } in
          rw h (elim (Result-cases (apply_service E server s').0) [
            | inr (e, k) ↦ rw (k, apply_service-trace s', k) (service_failed x)
            | inl (r, k) ↦ rw k (finish-Ended d _ (rw (apply_service-trace s', k) (served x)))
          ])
    ]

    reconcile_workload-Ended :
        (s : Run E)
        → Stored old s.trace
        → Ended old
            (reconcile_workload E server (apply_defaults server) s).0
            (reconcile_workload E server (apply_defaults server) s).1.trace
    unfolding reconcile_workload degrade
    reconcile_workload-Ended s x = elim (Result-cases (apply_deployment E server s).0) [
      | inr (e, h) ↦ rw (h, apply_deployment-trace s, h) (deployment_failed x (_, refl))
      | inl (r, h) ↦
          rw h (workload_from_deployment _ (rw (apply_deployment-trace s, h) (deployed x)))
    ]

    reconcile_storage-Ended :
        (volume : Option VolumeConfig) (s : Run E) (r : OperationResult × ConfigMap K)
        → server.spec.data_volume ≡ volume
        → s.trace ≡ applied_config_map (config_map_for_server server) (ok r) ∷ old
        → Ended old
            (reconcile_storage E server (apply_defaults server) volume s).0
            (reconcile_storage E server (apply_defaults server) volume s).1.trace
    unfolding reconcile_storage
    reconcile_storage-Ended none s r h x = reconcile_workload-Ended s (rw x (config_only h))
    reconcile_storage-Ended (some v) s r h x = elim (Result-cases (apply_pvc E server v s).0) [
      | inr (e, k) ↦ rw (k, apply_pvc-trace s v, k, x) (claim_failed h)
      | inl (q, k) ↦
          rw k (reconcile_workload-Ended _ (rw (apply_pvc-trace s v, k, x) (with_claim h)))
    ]

  -- Every run over a live server goes by the steps above, whatever the cluster answers: nothing is
  -- applied before what it rests on, and the first step that fails ends the run with its error.
  -- After all steps the status that is written is "Running", with the ports of the service and the
  -- replicas of the Deployment, and the error of the run is that of the write, if there is one;
  -- after a failed ConfigMap or Deployment the status is written as it was found, with the condition
  -- "Degraded" set; after any other failure none is written.
  pub reconcile_live-Ended :
      (s : Run E) → Ended s.trace (reconcile_live E server s).0 (reconcile_live E server s).1.trace
  unfolding reconcile_live degrade apply_defaults
  reconcile_live-Ended s = elim (Result-cases (apply_config_map E server s).0) [
    | inr (e, h) ↦ rw (h, apply_config_map-trace s, h) (config_failed (_, refl))
    | inl (r, h) ↦ rw h (
        reconcile_storage-Ended s.trace server.spec.data_volume _ r refl
          (rw (apply_config_map-trace s, h)))
  ]
