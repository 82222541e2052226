-- ===== src/Tests/Server.antt =====
-- The server controller at the sample server.
use sftpgo_operator.Base.{inr, ◌≡◌, refl, none, some, List, [], ◌∷◌, pos, ok, true}
use sftpgo_operator.Api.ServerTypes.{SftpGoServer}
use sftpgo_operator.Kube.Objects.{Deployment, config_map}
use sftpgo_operator.Kube.Calls.{Event, put_server_status, done}
use sftpgo_operator.Server.Defaults.{apply_defaults}
use sftpgo_operator.Server.Config.{sftpgo_minimal_config}
use sftpgo_operator.Server.Desired.{
  config_map_for_server, deployment_for_server, pvc_for_server, service_for_server,
}
use sftpgo_operator.Server.Reconcile.{
  mutate_config_map, mutate_pvc, mutate_deployment, mutate_service, reconcile_live,
  reconcile_server, reconcile_storage, reconcile_workload, apply_config_map, apply_pvc,
  apply_deployment, apply_service, finish, degrade,
}
use sftpgo_operator.Server.Runs.{Ended, reconcile_live-Ended}
use sftpgo_operator.Server.Applies.{applications, reconcile_server-applications}
use sftpgo_operator.Server.Mutate.{mutate_deployment-settles}
use sftpgo_operator.Server.Conditions.{find_condition, reconcile_live_keeps_degraded}
use sftpgo_operator.Server.Wiring.{Routes, service-Routes, Mounts, mounted, deployment-Mounts}
use sftpgo_operator.Server.Ports.{
  sftpgo_minimal_config-ignores_web_port, port_named, client_for-service_for_server,
}
use sftpgo_operator.User.Reconcile.{client_for}
use sftpgo_operator.Sftpgo.Client.{service_url}
use sftpgo_operator.Tests.World.{sample_kinds, cluster-IsReferenceSetter, cluster-IsConditionSetter}
use sftpgo_operator.Tests.Samples.{
  sample_server, sample_server_spec, sample_http, sample_deployment, sample_env, before,
}

reconcile_live-Ended_example :
    Ended sample_env sample_server []
      (reconcile_live sample_env sample_server before).0
      (reconcile_live sample_env sample_server before).1.trace
reconcile_live-Ended_example = reconcile_live-Ended sample_env sample_server before

reconcile_live-sample_server : (reconcile_live sample_env sample_server before).0 ≡ ok done
unfolding reconcile_live reconcile_storage reconcile_workload apply_config_map apply_pvc
    apply_deployment apply_service mutate_config_map mutate_pvc mutate_deployment mutate_service
    finish degrade apply_defaults pvc_for_server
reconcile_live-sample_server = refl

reconcile_live_keeps_degraded_example :
    (final : SftpGoServer sample_kinds) × (t : List (Event sample_kinds)) × ((reconcile_live
        sample_env sample_server before).1.trace
      ≡ put_server_status final (ok tt) ∷ t)
    × (find_condition "Degraded" final.status.conditions ≡ none)
reconcile_live_keeps_degraded_example =
    reconcile_live_keeps_degraded sample_env
      (cluster-IsConditionSetter sample_server sample_deployment) sample_server before
      reconcile_live-sample_server

abbrev live_deployment : Deployment sample_kinds
live_deployment = record sample_deployment {
  spec = record sample_deployment.spec { replicas = some (pos 5) };
}

abbrev owned_deployment : Deployment sample_kinds
owned_deployment = record sample_deployment {
  meta = record sample_deployment.meta { owner_references = "u1" ∷ [] };
}

mutate_deployment-live :
    mutate_deployment sample_env sample_server (deployment_for_server sample_server) live_deployment
    ≡ ok owned_deployment
unfolding mutate_deployment deployment_for_server
mutate_deployment-live = refl

mutate_deployment-settles_example :
    (owned_deployment.spec ≡ (deployment_for_server sample_server).spec)
    × (owned_deployment.status ≡ live_deployment.status)
    × (mutate_deployment sample_env sample_server
          (deployment_for_server sample_server)
          owned_deployment
        ≡ ok owned_deployment)
mutate_deployment-settles_example =
    mutate_deployment-settles sample_env (cluster-IsReferenceSetter sample_server sample_deployment)
      sample_server (deployment_for_server sample_server) live_deployment owned_deployment
      mutate_deployment-live

abbrev http_server : SftpGoServer sample_kinds
http_server = record sample_server {
  spec = record sample_server_spec {
    config = record sample_server_spec.config { http = some sample_http };
  };
}

sftpgo_minimal_config-ignores_web_port_example :
    sftpgo_minimal_config (apply_defaults http_server) true
    ≡ sftpgo_minimal_config (apply_defaults sample_server) true
sftpgo_minimal_config-ignores_web_port_example =
    sftpgo_minimal_config-ignores_web_port sample_server true (pos 8080) (some sample_http)

client_for-service_for_server_example :
    (port_named "web" (service_for_server http_server).spec.ports ≡ some (pos 9090))
    × ((client_for http_server "files" "admin" "secret").base_url
        ≡ service_url "main" "files" (pos 8080))
client_for-service_for_server_example =
    client_for-service_for_server http_server sample_http 9089 8079 "files" "admin" "secret" refl
      refl refl

service-Routes_example : Routes sample_server
service-Routes_example = service-Routes sample_server

deployment-Mounts_example :
    Mounts sample_server (deployment_for_server sample_server).spec.pod.containers
    × (mounted sample_server "config"
        ≡ some (config_map (config_map_for_server sample_server).meta.name))
deployment-Mounts_example = deployment-Mounts sample_server

abbrev deleted_server : SftpGoServer sample_kinds
deleted_server = record sample_server {
  meta = record sample_server.meta { deletion_timestamp = some 5 };
}

reconcile_server-applications_example :
    applications (reconcile_server sample_env deleted_server before).1.trace ≡ []
reconcile_server-applications_example =
    reconcile_server-applications sample_env deleted_server before (inr refl)
