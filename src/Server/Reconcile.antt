-- ===== src/Server/Reconcile.antt =====
-- `SftpGoServerReconciler`. `Reconcile` is cut at its early returns into functions that call one
-- another in the order of the source.
use sftpgo_operator.Base.{
  String, true, not, Option, none, some, [], pos, is_positive, Result, ok, err, Exec, pure, raise,
  attempt, ◌>>=◌, ◌>>◌, if◌then◌else◌,
}
use sftpgo_operator.Api.Meta.{Kinds, NamespacedName, ObjectMeta, condition_true, Condition, named}
use sftpgo_operator.Api.ServerTypes.{SftpGoServer, SftpGoServerSpec, VolumeConfig}
use sftpgo_operator.Kube.Objects.{
  ConfigMap, PersistentVolumeClaim, Deployment, DeploymentStatus, Service, OperationResult,
}
use sftpgo_operator.Kube.Env.{Env}
use sftpgo_operator.Kube.Calls.{
  Run, got_server, got_deployment, put_server, put_server_status, applied_config_map, applied_pvc,
  applied_deployment, applied_service, Outcome, done, is_deleting, condition, call, ask,
}
use sftpgo_operator.Server.Defaults.{server_finalizer, apply_defaults, get_sftp_port, get_web_port}
use sftpgo_operator.Server.Desired.{
  config_map_for_server, deployment_for_server, service_for_server, pvc_for_server,
}

module _ {K : Kinds} (E : Env K) where
  -- The functions that `CreateOrUpdate` runs on the live object.
  abbrev pub with_meta : {A : Type 0} → Result (ObjectMeta K) → (ObjectMeta K → A) → Result A
  with_meta (ok meta) f = ok (f meta)
  with_meta (err e) f = err e

  unfoldable pub mutate_config_map :
      SftpGoServer K → ConfigMap K → ConfigMap K → Result (ConfigMap K)
  mutate_config_map server desired live =
      let meta : ObjectMeta K = record live.meta {
        labels = desired.meta.labels;
        annotations = desired.meta.annotations;
      } in
      with_meta (E.set_controller_reference server.meta meta)
        λ owned. record live { meta = owned; contents = desired.contents }

  unfoldable pub mutate_pvc :
      SftpGoServer K → PersistentVolumeClaim K → Result (PersistentVolumeClaim K)
  mutate_pvc server live =
      with_meta (E.set_controller_reference server.meta live.meta)
        λ owned. record live { meta = owned }

  unfoldable pub mutate_deployment :
      SftpGoServer K → Deployment K → Deployment K → Result (Deployment K)
  mutate_deployment server desired live =
      let meta : ObjectMeta K = record live.meta {
        labels = desired.meta.labels;
        annotations = desired.meta.annotations;
      } in
      with_meta (E.set_controller_reference server.meta meta)
        λ owned. record live { meta = owned; spec = desired.spec }

  unfoldable pub mutate_service : SftpGoServer K → Service K → Service K → Result (Service K)
  mutate_service server desired live =
      let meta : ObjectMeta K = record live.meta {
        labels = desired.meta.labels;
        annotations = desired.meta.annotations;
      } in
      with_meta (E.set_controller_reference server.meta meta) λ owned. record live {
        meta = owned;
        spec = record live.spec {
          ports = desired.spec.ports;
          selector = desired.spec.selector;
          type = desired.spec.type;
        };
      }

  abbrev pub write_server : SftpGoServer K → Exec (Run E) Unit
  write_server server = call E (E.update_server server) (put_server server)

  abbrev pub write_server_status : SftpGoServer K → Exec (Run E) Unit
  write_server_status server = call E (E.update_server_status server) (put_server_status server)

  -- `meta.SetStatusCondition(&server.Status.Conditions, c)`
  abbrev pub with_condition : SftpGoServer K → Condition → Exec (Run E) (SftpGoServer K)
  with_condition server c = do
    cs ← ask E (E.set_status_condition server.status.conditions c)
    pure (record server { status = record server.status { conditions = cs } })

  -- The error path of two of the steps.
  unfoldable pub degrade : SftpGoServer K → String → String → Exec (Run E) Unit
  degrade server reason message = do
    marked ← with_condition server (condition "Degraded" condition_true reason message)
    attempt (write_server_status marked)
    pure tt

  unfoldable pub apply_config_map : SftpGoServer K → Exec (Run E) (OperationResult × ConfigMap K)
  apply_config_map server =
      let desired = config_map_for_server server in
      let empty : ConfigMap K = record {
        meta = named desired.meta.name desired.meta.namespace;
        contents = [];
      } in
      call E (E.create_or_update_config_map empty (mutate_config_map server desired))
        (applied_config_map desired)

  unfoldable pub apply_pvc :
      SftpGoServer K → VolumeConfig → Exec (Run E) (OperationResult × PersistentVolumeClaim K)
  apply_pvc server volume =
      let pvc = pvc_for_server E server volume in
      call E (E.create_or_update_pvc pvc (mutate_pvc server)) (applied_pvc pvc)

  unfoldable pub apply_deployment : SftpGoServer K → Exec (Run E) (OperationResult × Deployment K)
  apply_deployment server =
      let desired = deployment_for_server server in
      let empty : Deployment K = record {
        meta = named desired.meta.name desired.meta.namespace;
        spec = record {
          replicas = none;
          selector = [];
          template_labels = [];
          pod = record {
            service_account_name = "";
            containers = [];
            volumes = [];
            node_selector = [];
            tolerations = [];
            affinity = none;
          };
        };
        status = record { replicas = pos 0; ready_replicas = pos 0 };
      } in
      call E (E.create_or_update_deployment empty (mutate_deployment server desired))
        (applied_deployment desired)

  unfoldable pub apply_service : SftpGoServer K → Exec (Run E) (OperationResult × Service K)
  apply_service server =
      let desired = service_for_server server in
      let empty : Service K = record {
        meta = named desired.meta.name desired.meta.namespace;
        spec = record { selector = []; ports = []; type = ""; cluster_ip = "" };
      } in
      call E (E.create_or_update_service empty (mutate_service server desired))
        (applied_service desired)

  abbrev pub read_deployment : NamespacedName → Exec (Run E) (Deployment K)
  read_deployment key = call E (E.get_deployment key) (got_deployment key)

  abbrev pub with_replicas : DeploymentStatus → SftpGoServer K → SftpGoServer K
  with_replicas status server =
      if is_positive status.replicas
      then record server {
        status = record server.status {
          replicas = status.replicas;
          ready_replicas = status.ready_replicas;
        };
      }
      else server

  abbrev pub as_running : SftpGoServerSpec K → SftpGoServer K → SftpGoServer K
  as_running spec server = record server {
    status = record server.status {
      phase = "Running";
      ports = record {
        sftp = get_sftp_port spec;
        web = get_web_port spec;
        http = get_web_port spec;
        ftp = pos 0;
      };
    };
  }

  -- From `// Update status` on.
  unfoldable pub finish :
      SftpGoServer K → SftpGoServerSpec K → DeploymentStatus → Exec (Run E) Outcome
  finish server spec deployment_status = do
    marked ← with_condition server (condition "Ready" condition_true "Reconciled" "")
    write_server_status (with_replicas deployment_status (as_running spec marked))
    pure done

  -- From the Deployment on.
  unfoldable pub reconcile_workload : SftpGoServer K → SftpGoServerSpec K → Exec (Run E) Outcome
  reconcile_workload server spec = do
    applied ← attempt (apply_deployment server)
    elim applied [
      | err e ↦ do degrade server "DeploymentError" e.message; raise e
      | ok _ ↦ do
        deployment ←
            read_deployment (record { namespace = server.meta.namespace; name = server.meta.name })
        apply_service server
        finish server spec deployment.status
    ]

  -- From the PVC on, with `spec.DataVolume`.
  unfoldable pub reconcile_storage :
      SftpGoServer K → SftpGoServerSpec K → Option VolumeConfig → Exec (Run E) Outcome
  reconcile_storage server spec none = reconcile_workload server spec
  reconcile_storage server spec (some volume) = do
    apply_pvc server volume
    reconcile_workload server spec

  -- From `spec := r.applyDefaults(server)` on.
  unfoldable pub reconcile_live : SftpGoServer K → Exec (Run E) Outcome
  reconcile_live server = do
    applied ← attempt (apply_config_map server)
    elim applied [
      | err e ↦ do degrade server "ConfigMapError" e.message; raise e
      | ok _ ↦ let spec = apply_defaults server in reconcile_storage server spec spec.data_volume
    ]

  unfoldable pub reconcile_deleted : SftpGoServer K → Exec (Run E) Outcome
  reconcile_deleted server =
      if E.contains_finalizer server.meta server_finalizer
      then (do
        write_server (record server { meta = E.remove_finalizer server.meta server_finalizer })
        pure done)
      else pure done

  unfoldable pub reconcile_server : SftpGoServer K → Exec (Run E) Outcome
  reconcile_server server =
      if not (E.contains_finalizer server.meta server_finalizer)
      then (do
        write_server (record server { meta = E.add_finalizer server.meta server_finalizer })
        pure (record { requeue = true }))
      else if is_deleting server.meta
      then reconcile_deleted server
      else reconcile_live server

  unfoldable pub reconcile : NamespacedName → Exec (Run E) Outcome
  reconcile req = do
    got ← attempt (call E (E.get_server req) (got_server req))
    elim got [
      | err e ↦ if e.is_not_found then pure done else raise e
      | ok server ↦ reconcile_server server
    ]
