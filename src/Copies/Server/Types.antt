-- ===== src/Copies/Server/Types.antt =====
-- The structs of api/v1alpha1/sftpgoserver_types.go that hold references, with the addresses.
use sftpgo_operator.Base.{String, Bool, List, ℤ}
use sftpgo_operator.Base.Text.{Dict}
use sftpgo_operator.Api.Meta.{Kinds, LocalObjectReference}
use sftpgo_operator.Api.ServerTypes.{
  CommonConfig, PortRange, WebDavConfig, HttpConfig, ServicePorts,
}
use sftpgo_operator.Copies.Memory.{Ref}
use sftpgo_operator.Copies.Foreign.{Foreign}

pub record VolumeConfig : Type 0 where
  pub storage_class : Ref String
  pub size : String
  pub mount_path : String

pub record DatabaseConfig {K : Kinds} (F : Foreign K) : Type 0 where
  pub host : String
  pub port : ℤ
  pub database : String
  pub username : String
  pub password_secret : Ref F.secret_key_selector.Memory
  pub ssl_mode : String

pub record SftpConfig : Type 0 where
  pub enabled : Bool
  pub port : ℤ
  pub host_keys : Ref (List String)
  pub max_auth_tries : ℤ
  pub allowed_ssh_commands : Ref (List String)
  pub password_authentication : Bool
  pub keyboard_interactive_auth : Bool

pub record FtpConfig : Type 0 where
  pub enabled : Bool
  pub port : ℤ
  pub passive_port_range : Ref PortRange
  pub active_port_range : Ref PortRange

pub record SftpgoConfig : Type 0 where
  pub common : Ref CommonConfig
  pub sftp : Ref SftpConfig
  pub ftp : Ref FtpConfig
  pub webdav : Ref WebDavConfig
  pub http : Ref HttpConfig

pub record SftpGoServerSpec {K : Kinds} (F : Foreign K) : Type 0 where
  pub image : String
  pub image_pull_policy : String
  pub replicas : Ref ℤ
  pub service_account : String
  pub config : SftpgoConfig
  pub sftp_port : ℤ
  pub web_port : ℤ
  pub data_volume : Ref VolumeConfig
  pub storage_backend : String
  pub database : Ref (DatabaseConfig F)
  pub resources : Ref F.resource_requirements.Memory
  pub node_selector : Ref (Dict String)
  pub tolerations : Ref (List F.toleration.Memory)
  pub affinity : Ref F.affinity.Memory
  pub admin_secret_ref : Ref LocalObjectReference

pub record SftpGoServerStatus {K : Kinds} (F : Foreign K) : Type 0 where
  pub replicas : ℤ
  pub ready_replicas : ℤ
  pub conditions : Ref (List F.condition.Memory)
  pub phase : String
  pub ports : ServicePorts

pub record SftpGoServer {K : Kinds} (F : Foreign K) : Type 0 where
  pub meta : F.object_meta.Memory
  pub spec : SftpGoServerSpec F
  pub status : SftpGoServerStatus F

pub record SftpGoServerList {K : Kinds} (F : Foreign K) : Type 0 where
  pub list_meta : F.list_meta.Memory
  pub items : Ref (List (SftpGoServer F))
