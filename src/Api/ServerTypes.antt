-- ===== src/Api/ServerTypes.antt =====
-- api/v1alpha1/sftpgoserver_types.go
use sftpgo_operator.Base.{String, Bool, Option, List, ℤ}
use sftpgo_operator.Base.Text.{Dict}
use sftpgo_operator.Api.Meta.{Kinds, ObjectMeta, Condition, LocalObjectReference, SecretKeySelector}

pub record VolumeConfig : Type 0 where
  pub storage_class : Option String
  pub size : String
  pub mount_path : String

pub record DatabaseConfig : Type 0 where
  pub host : String
  pub port : ℤ
  pub database : String
  pub username : String
  pub password_secret : Option SecretKeySelector
  pub ssl_mode : String

pub record CommonConfig : Type 0 where
  pub idle_timeout : ℤ
  pub upload_mode : ℤ
  pub max_total_connections : ℤ
  pub max_per_host_connections : ℤ

pub record SftpConfig : Type 0 where
  pub enabled : Bool
  pub port : ℤ
  pub host_keys : List String
  pub max_auth_tries : ℤ
  pub allowed_ssh_commands : List String
  pub password_authentication : Bool
  pub keyboard_interactive_auth : Bool

pub record PortRange : Type 0 where
  pub start : ℤ
  pub end : ℤ

pub record FtpConfig : Type 0 where
  pub enabled : Bool
  pub port : ℤ
  pub passive_port_range : Option PortRange
  pub active_port_range : Option PortRange

pub record WebDavConfig : Type 0 where
  pub enabled : Bool
  pub port : ℤ
  pub enable_https : Bool
  pub certificate_file : String
  pub certificate_key_file : String

pub record HttpConfig : Type 0 where
  pub enabled : Bool
  pub port : ℤ
  pub enable_https : Bool
  pub certificate_file : String
  pub certificate_key_file : String
  pub base_url : String

pub record SftpgoConfig : Type 0 where
  pub common : Option CommonConfig
  pub sftp : Option SftpConfig
  pub ftp : Option FtpConfig
  pub webdav : Option WebDavConfig
  pub http : Option HttpConfig

pub record SftpGoServerSpec (K : Kinds) : Type 0 where
  pub image : String
  pub image_pull_policy : String
  pub replicas : Option ℤ
  pub service_account : String
  pub config : SftpgoConfig
  pub sftp_port : ℤ
  pub web_port : ℤ
  pub data_volume : Option VolumeConfig
  pub storage_backend : String
  pub database : Option DatabaseConfig
  pub resources : Option K.ResourceRequirements
  pub node_selector : Dict String
  pub tolerations : List K.Toleration
  pub affinity : Option K.Affinity
  pub admin_secret_ref : Option LocalObjectReference

pub record ServicePorts : Type 0 where
  pub sftp : ℤ
  pub web : ℤ
  pub http : ℤ
  pub ftp : ℤ

pub record SftpGoServerStatus : Type 0 where
  pub replicas : ℤ
  pub ready_replicas : ℤ
  pub conditions : List Condition
  pub phase : String
  pub ports : ServicePorts

pub record SftpGoServer (K : Kinds) : Type 0 where
  pub meta : ObjectMeta K
  pub spec : SftpGoServerSpec K
  pub status : SftpGoServerStatus
