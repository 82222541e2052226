-- ===== src/Api/UserTypes.antt =====
-- api/v1alpha1/sftpgouser_types.go
use sftpgo_operator.Base.{String, Bool, Option, List, ℤ}
use sftpgo_operator.Api.Meta.{Kinds, ObjectMeta, Condition, Time}

pub record SecretRef : Type 0 where
  pub name : String
  pub key : String

pub record VirtualFolder : Type 0 where
  pub virtual_path : String
  pub physical_path : String
  pub quota : ℤ

pub record Quota : Type 0 where
  pub size : ℤ
  pub files : ℤ

pub record BandwidthLimits : Type 0 where
  pub upload : ℤ
  pub download : ℤ

pub record RateLimits : Type 0 where
  pub average : ℤ
  pub burst : ℤ

pub record TimeInterval : Type 0 where
  pub start : ℤ
  pub end : ℤ
  pub days : List ℤ

pub record UserFilters : Type 0 where
  pub require_password_change : Bool
  pub require_totp : Bool
  pub external_auth_hook : String
  pub allowed_commands : List String
  pub time_intervals : List TimeInterval

pub record S3FilesystemConfig : Type 0 where
  pub bucket : String
  pub region : String
  pub access_key : String
  pub access_secret : Option SecretRef
  pub endpoint : String
  pub storage_class : String
  pub acl : String
  pub upload_part_size : ℤ
  pub key_prefix : String

pub record GcsFilesystemConfig : Type 0 where
  pub bucket : String
  pub credentials_file : String
  pub storage_class : String
  pub key_prefix : String

pub record AzureFilesystemConfig : Type 0 where
  pub container : String
  pub account_name : String
  pub account_key : Option SecretRef
  pub sas_url : String
  pub endpoint_suffix : String
  pub upload_block_size : ℤ
  pub key_prefix : String

pub record SftpFilesystemConfig : Type 0 where
  pub host : String
  pub port : ℤ
  pub username : String
  pub password : Option SecretRef
  pub private_key : Option SecretRef
  pub remote_path : String

pub record CryptFilesystemConfig : Type 0 where
  pub passphrase : Option SecretRef
  pub physical_path : String

pub record FilesystemConfig : Type 0 where
  pub provider : String
  pub s3 : Option S3FilesystemConfig
  pub gcs : Option GcsFilesystemConfig
  pub azure : Option AzureFilesystemConfig
  pub sftp : Option SftpFilesystemConfig
  pub crypt : Option CryptFilesystemConfig

pub record ServerRef : Type 0 where
  pub name : String
  pub namespace : String

pub record SftpGoUserSpec : Type 0 where
  pub username : String
  pub password : String
  pub password_secret_ref : Option SecretRef
  pub public_keys : List String
  pub public_keys_secret_ref : Option SecretRef
  pub email : String
  pub status : String
  pub home_dir : String
  pub virtual_folders : List VirtualFolder
  pub permissions : List String
  pub quota : Option Quota
  pub bandwidth_limits : Option BandwidthLimits
  pub rate_limits : Option RateLimits
  pub max_sessions : ℤ
  pub max_concurrent_transfers : ℤ
  pub allowed_ip : List String
  pub denied_ip : List String
  pub protocols : List String
  pub groups : List String
  pub filters : UserFilters
  pub filesystem : Option FilesystemConfig
  pub server_ref : ServerRef

pub record SftpGoUserStatus : Type 0 where
  pub phase : String
  pub user_id : ℤ
  pub conditions : List Condition
  pub last_synced : Option Time

pub record SftpGoUser (K : Kinds) : Type 0 where
  pub meta : ObjectMeta K
  pub spec : SftpGoUserSpec
  pub status : SftpGoUserStatus
