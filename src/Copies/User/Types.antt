-- ===== src/Copies/User/Types.antt =====
-- The structs of api/v1alpha1/sftpgouser_types.go that hold references, with the addresses.
use sftpgo_operator.Base.{String, Bool, List, ℤ}
use sftpgo_operator.Api.Meta.{Kinds}
use sftpgo_operator.Api.UserTypes.{
  SecretRef, VirtualFolder, Quota, BandwidthLimits, RateLimits, GcsFilesystemConfig, ServerRef,
}
use sftpgo_operator.Copies.Memory.{Ref}
use sftpgo_operator.Copies.Foreign.{Foreign}

pub record TimeInterval : Type 0 where
  pub start : ℤ
  pub end : ℤ
  pub days : Ref (List ℤ)

pub record UserFilters : Type 0 where
  pub require_password_change : Bool
  pub require_totp : Bool
  pub external_auth_hook : String
  pub allowed_commands : Ref (List String)
  pub time_intervals : Ref (List TimeInterval)

pub record S3FilesystemConfig : Type 0 where
  pub bucket : String
  pub region : String
  pub access_key : String
  pub access_secret : Ref SecretRef
  pub endpoint : String
  pub storage_class : String
  pub acl : String
  pub upload_part_size : ℤ
  pub key_prefix : String

pub record AzureFilesystemConfig : Type 0 where
  pub container : String
  pub account_name : String
  pub account_key : Ref SecretRef
  pub sas_url : String
  pub endpoint_suffix : String
  pub upload_block_size : ℤ
  pub key_prefix : String

pub record SftpFilesystemConfig : Type 0 where
  pub host : String
  pub port : ℤ
  pub username : String
  pub password : Ref SecretRef
  pub private_key : Ref SecretRef
  pub remote_path : String

pub record CryptFilesystemConfig : Type 0 where
  pub passphrase : Ref SecretRef
  pub physical_path : String

pub record FilesystemConfig : Type 0 where
  pub provider : String
  pub s3 : Ref S3FilesystemConfig
  pub gcs : Ref GcsFilesystemConfig
  pub azure : Ref AzureFilesystemConfig
  pub sftp : Ref SftpFilesystemConfig
  pub crypt : Ref CryptFilesystemConfig

pub record SftpGoUserSpec : Type 0 where
  pub username : String
  pub password : String
  pub password_secret_ref : Ref SecretRef
  pub public_keys : Ref (List String)
  pub public_keys_secret_ref : Ref SecretRef
  pub email : String
  pub status : String
  pub home_dir : String
  pub virtual_folders : Ref (List VirtualFolder)
  pub permissions : Ref (List String)
  pub quota : Ref Quota
  pub bandwidth_limits : Ref BandwidthLimits
  pub rate_limits : Ref RateLimits
  pub max_sessions : ℤ
  pub max_concurrent_transfers : ℤ
  pub allowed_ip : Ref (List String)
  pub denied_ip : Ref (List String)
  pub protocols : Ref (List String)
  pub groups : Ref (List String)
  pub filters : UserFilters
  pub filesystem : Ref FilesystemConfig
  pub server_ref : ServerRef

pub record SftpGoUserStatus {K : Kinds} (F : Foreign K) : Type 0 where
  pub phase : String
  pub user_id : ℤ
  pub conditions : Ref (List F.condition.Memory)
  pub last_synced : Ref F.time.Memory

pub record SftpGoUser {K : Kinds} (F : Foreign K) : Type 0 where
  pub meta : F.object_meta.Memory
  pub spec : SftpGoUserSpec
  pub status : SftpGoUserStatus F

pub record SftpGoUserList {K : Kinds} (F : Foreign K) : Type 0 where
  pub list_meta : F.list_meta.Memory
  pub items : Ref (List (SftpGoUser F))
