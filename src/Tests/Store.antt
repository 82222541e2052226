-- ===== src/Tests/Store.antt =====
-- Reconciles in a cluster that keeps the objects of servers.
use sftpgo_operator.Base.{String, List, [], ◌∷◌, ok, ◌≡◌, ◌≢◌, refl, ap, arith, eq_iff}
use sftpgo_operator.Kube.Objects.{OperationResult, unchanged, Container, DeploymentSpec}
use sftpgo_operator.Kube.Calls.{Run, done}
use sftpgo_operator.Server.Store.{IsServed}
use sftpgo_operator.Server.Defaults.{apply_defaults}
use sftpgo_operator.Server.Desired.{
  config_map_for_server, deployment_for_server, service_for_server, pvc_for_server,
}
use sftpgo_operator.Server.Reconcile.{
  mutate_config_map, mutate_pvc, mutate_deployment, mutate_service, reconcile_live,
  reconcile_storage, reconcile_workload, apply_config_map, apply_pvc, apply_deployment,
  apply_service, finish, degrade,
}
use sftpgo_operator.Server.Store.Reached.{reconcile_live-IsServed}
use sftpgo_operator.Server.Store.Rewrites.{
  deployment_results, service_results, reconcile_live-rewrites_service,
  reconcile_live-rewrites_deployment,
}
use sftpgo_operator.Tests.World.{sample_kinds}
use sftpgo_operator.Tests.Samples.{sample_server}
use sftpgo_operator.Tests.Objects.{keeping, kept_objects, seen, empty_cluster}

reconcile_live-keeping : (reconcile_live keeping sample_server empty_cluster).0 ≡ ok done
unfolding reconcile_live reconcile_storage reconcile_workload apply_config_map apply_pvc
    apply_deployment apply_service mutate_config_map mutate_pvc mutate_deployment mutate_service
    finish degrade apply_defaults pvc_for_server config_map_for_server deployment_for_server
    service_for_server
reconcile_live-keeping = refl

reconcile_live-IsServed_example :
    IsServed keeping kept_objects.defaulted sample_server
      (seen (reconcile_live keeping sample_server empty_cluster).1.world)
reconcile_live-IsServed_example =
    reconcile_live-IsServed keeping kept_objects sample_server empty_cluster done
      reconcile_live-keeping

abbrev after : Run keeping
after = (reconcile_live keeping sample_server empty_cluster).1

-- The second reconcile, of objects that are all there.
reconcile_live-again : (reconcile_live keeping sample_server after).0 ≡ ok done
unfolding reconcile_live reconcile_storage reconcile_workload apply_config_map apply_pvc
    apply_deployment apply_service mutate_config_map mutate_pvc mutate_deployment mutate_service
    finish degrade apply_defaults pvc_for_server config_map_for_server deployment_for_server
    service_for_server
reconcile_live-again = refl

reconcile_live-rewrites_service_example :
    (r : OperationResult) × (service_results (reconcile_live keeping sample_server after).1.trace
      ≡ r ∷ service_results after.trace)
    × (r ≢ unchanged)
reconcile_live-rewrites_service_example =
    reconcile_live-rewrites_service keeping kept_objects sample_server after done
      reconcile_live-again

abbrev wanted : DeploymentSpec sample_kinds
wanted = (deployment_for_server sample_server).spec

abbrev policies : List (Container sample_kinds) → List String
policies [] = []
policies (c ∷ l) = c.image_pull_policy ∷ policies l

wanted-filled : kept_objects.defaulted wanted ≢ wanted
unfolding deployment_for_server
wanted-filled h =
    let same : "Always" ∷ [] ≡ "" ∷ [] = ap (λ spec. policies spec.pod.containers) h in
    ground (arith, eq_iff "Always" "")

reconcile_live-rewrites_deployment_example :
    (r : OperationResult) × (deployment_results (reconcile_live keeping sample_server after).1.trace
      ≡ r ∷ deployment_results after.trace)
    × (r ≢ unchanged)
reconcile_live-rewrites_deployment_example =
    reconcile_live-rewrites_deployment keeping kept_objects sample_server wanted-filled after done
      reconcile_live-again
