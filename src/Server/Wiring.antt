-- ===== src/Server/Wiring.antt =====
-- How the objects of one server refer to one another.
use sftpgo_operator.Base.{
  String, true, false, ◌≡◌, refl, Option, none, some, List, [], ◌∷◌, ℤ, ◌==◌, map, All,
}
use sftpgo_operator.Api.Meta.{Kinds}
use sftpgo_operator.Api.ServerTypes.{SftpGoServer, VolumeConfig}
use sftpgo_operator.Kube.Objects.{
  Volume, VolumeSource, config_map, persistent_volume_claim, Container,
}
use sftpgo_operator.Kube.Env.{Env}
use sftpgo_operator.Server.Desired.{
  config_map_for_server, data_source, deployment_for_server, service_for_server, pvc_for_server,
}

-- The source of the volume that a mount names.
abbrev source_of : String → List Volume → Option VolumeSource
source_of name [] = none
source_of name (v ∷ volumes) = elim (v.name == name) [
  | true ↦ some v.source
  | false ↦ source_of name volumes
]

abbrev port_list : {K : Kinds} → List (Container K) → List (String × ℤ)
port_list [] = []
port_list (c ∷ l) = map (λ p. (p.name, p.container_port)) c.ports

-- What a mounted pod needs of the other objects.
module _ {K : Kinds} (s : SftpGoServer K) where
  -- The service selects the pods of the deployment, the deployment owns them, and a port of the
  -- service leads to the port of the container that has its name.
  pub record Routes : Type 0 where
    pub selects :
        (service_for_server s).spec.selector ≡ (deployment_for_server s).spec.template_labels
    pub owns :
        (deployment_for_server s).spec.selector ≡ (deployment_for_server s).spec.template_labels
    pub leads :
        map (λ p. (p.name, p.target_port)) (service_for_server s).spec.ports
        ≡ port_list (deployment_for_server s).spec.pod.containers

  -- Every server's service routes to the pods of its deployment, port by port.
  pub service-Routes : Routes
  unfolding service_for_server deployment_for_server
  service-Routes = record { selects = refl; owns = refl; leads = refl }

  abbrev pub mounted : String → Option VolumeSource
  mounted name = source_of name (deployment_for_server s).spec.pod.volumes

  -- Each mount of a container names a volume of the pod.
  abbrev pub Mounts : List (Container K) → Type 0
  Mounts = All (λ c. All (λ m. (v : VolumeSource) × (mounted m.name ≡ some v)) c.volume_mounts)

  -- The pods of a server find what they mount: each mount names a volume of the pod, and the
  -- volume "config" is the server's ConfigMap.
  pub deployment-Mounts :
      Mounts (deployment_for_server s).spec.pod.containers
      × (mounted "config" ≡ some (config_map (config_map_for_server s).meta.name))
  unfolding deployment_for_server config_map_for_server
  deployment-Mounts = (
    (
      ((config_map s.meta.name, refl), ((data_source s.meta.name s.spec.data_volume, refl), tt)),
      tt,
    ),
    refl,
  )

  -- Where a data volume is asked for, the pods mount the claim that the controller creates, and it
  -- lies in the namespace of the deployment.
  pub deployment-pvc_for_server :
      (E : Env K) (v : VolumeConfig)
      → s.spec.data_volume ≡ some v
      → (mounted "data" ≡ some (persistent_volume_claim (pvc_for_server E s v).meta.name))
        × ((pvc_for_server E s v).meta.namespace ≡ (deployment_for_server s).meta.namespace)
  unfolding deployment_for_server pvc_for_server
  deployment-pvc_for_server E v h = (rw h, refl)
