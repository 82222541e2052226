-- ===== src/Server/Desired.antt =====
-- The objects that a server stands for.
use sftpgo_operator.Base.{
  String, ◌<>◌, true, false, Option, none, some, List, [], ◌∷◌, ℤ, pos, is_some, ◌==◌,
  if◌then◌else◌,
}
use sftpgo_operator.Base.Text.{Dict}
use sftpgo_operator.Api.Meta.{Kinds, LocalObjectReference, named}
use sftpgo_operator.Api.ServerTypes.{SftpGoServer, SftpGoServerSpec, VolumeConfig}
use sftpgo_operator.Kube.Objects.{
  ConfigMap, PersistentVolumeClaim, VolumeSource, config_map, persistent_volume_claim, empty_dir,
  Volume, EnvVar, Container, Deployment, Service,
}
use sftpgo_operator.Kube.Env.{Env}
use sftpgo_operator.Server.Defaults.{apply_defaults, get_sftp_port, get_web_port}
use sftpgo_operator.Server.Config.{sftpgo_minimal_config}

unfoldable pub labels_for : String → Dict String
labels_for name = ("app", "sftpgo") ∷ ("controller", name) ∷ []

-- `StorageClass != nil && *StorageClass != ""`
abbrev given : Option String → Option String
given none = none
given (some s) = if s == "" then none else some s

abbrev credential : String → String → String → EnvVar
credential variable secret key = record {
  name = variable;
  secret_key_ref = record { name = secret; key = key };
}

abbrev admin_env : Option LocalObjectReference → List EnvVar
admin_env none = []
admin_env (some ref) =
    credential "SFTPGO_DEFAULT_ADMIN_USERNAME" ref.name "username"
    ∷ credential "SFTPGO_DEFAULT_ADMIN_PASSWORD" ref.name "password"
    ∷ []

abbrev pub data_source : String → Option VolumeConfig → VolumeSource
data_source name none = empty_dir
data_source name (some v) = persistent_volume_claim (name <> "-data")

abbrev data_path : Option VolumeConfig → String
data_path none = "/srv/sftpgo"
data_path (some v) = if v.mount_path == "" then "/srv/sftpgo" else v.mount_path

abbrev replicas_or_one : Option ℤ → ℤ
replicas_or_one none = pos 1
replicas_or_one (some n) = n

module _ {K : Kinds} where
  unfoldable pub config_map_for_server : SftpGoServer K → ConfigMap K
  unfolding sftpgo_minimal_config apply_defaults
  config_map_for_server s =
      let spec = apply_defaults s in
      record {
        meta = named s.meta.name s.meta.namespace;
        contents = ("sftpgo.json", sftpgo_minimal_config spec (is_some spec.admin_secret_ref)) ∷ [];
      }

  unfoldable pub volumes_for : SftpGoServer K → SftpGoServerSpec K → List Volume
  volumes_for s spec =
      record { name = "config"; source = config_map s.meta.name }
      ∷ record { name = "data"; source = data_source s.meta.name spec.data_volume }
      ∷ []

  unfoldable pub container_for : SftpGoServerSpec K → Container K
  unfolding get_sftp_port get_web_port
  container_for spec = record {
    name = "sftpgo";
    image = spec.image;
    image_pull_policy = spec.image_pull_policy;
    args = "sftpgo" ∷ "serve" ∷ "--config-file" ∷ "/etc/sftpgo/sftpgo.json" ∷ [];
    ports =
        record { name = "sftp"; container_port = get_sftp_port spec; protocol = "TCP" }
        ∷ record { name = "web"; container_port = get_web_port spec; protocol = "TCP" }
        ∷ [];
    volume_mounts =
        record { name = "config"; mount_path = "/etc/sftpgo"; read_only = true }
        ∷ record { name = "data"; mount_path = data_path spec.data_volume; read_only = false }
        ∷ [];
    env = admin_env spec.admin_secret_ref;
    resources = spec.resources;
  }

  unfoldable pub deployment_for_server : SftpGoServer K → Deployment K
  unfolding volumes_for container_for apply_defaults labels_for
  deployment_for_server s =
      let spec = apply_defaults s in
      record {
        meta = named s.meta.name s.meta.namespace;
        spec = record {
          replicas = some (replicas_or_one spec.replicas);
          selector = labels_for s.meta.name;
          template_labels = labels_for s.meta.name;
          pod = record {
            service_account_name = spec.service_account;
            containers = container_for spec ∷ [];
            volumes = volumes_for s spec;
            node_selector = spec.node_selector;
            tolerations = spec.tolerations;
            affinity = spec.affinity;
          };
        };
        status = record { replicas = pos 0; ready_replicas = pos 0 };
      }

  unfoldable pub service_for_server : SftpGoServer K → Service K
  unfolding apply_defaults labels_for get_sftp_port get_web_port
  service_for_server s =
      let spec = apply_defaults s in
      let sftp = get_sftp_port spec in
      let web = get_web_port spec in
      record {
        meta = named s.meta.name s.meta.namespace;
        spec = record {
          selector = labels_for s.meta.name;
          ports =
              record { name = "sftp"; port = sftp; target_port = sftp; protocol = "TCP" }
              ∷ record { name = "web"; port = web; target_port = web; protocol = "TCP" }
              ∷ [];
          type = "";
          cluster_ip = "";
        };
      }

-- `resourceQuantity` drops the error of the parse.
unfoldable pub resource_quantity : {K : Kinds} → Env K → String → K.Quantity
resource_quantity E s = (E.parse_quantity s).0

unfoldable pub pvc_for_server :
    {K : Kinds} → Env K → SftpGoServer K → VolumeConfig → PersistentVolumeClaim K
unfolding resource_quantity
pvc_for_server E s volume = record {
  meta = named (s.meta.name <> "-data") s.meta.namespace;
  spec = record {
    access_modes = "ReadWriteOnce" ∷ [];
    storage_request = resource_quantity E (if volume.size == "" then "10Gi" else volume.size);
    storage_class_name = given volume.storage_class;
    volume_name = "";
  };
}
