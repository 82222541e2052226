-- ===== src/Copies/User/Methods.antt =====
-- `DeepCopyInto` and `DeepCopy` of the structs of api/v1alpha1/sftpgouser_types.go.
use sftpgo_operator.Base.{List, ◌++◌}
use sftpgo_operator.Api.Meta.{Kinds}
use sftpgo_operator.Api.UserTypes.{
  TimeInterval as TimeIntervalValue, UserFilters as UserFiltersValue,
  S3FilesystemConfig as S3FilesystemConfigValue,
  AzureFilesystemConfig as AzureFilesystemConfigValue,
  SftpFilesystemConfig as SftpFilesystemConfigValue,
  CryptFilesystemConfig as CryptFilesystemConfigValue, FilesystemConfig as FilesystemConfigValue,
  SftpGoUserSpec as SftpGoUserSpecValue, SftpGoUserStatus as SftpGoUserStatusValue,
  SftpGoUser as SftpGoUserValue, SecretRef, VirtualFolder, Quota, BandwidthLimits, RateLimits,
  GcsFilesystemConfig, ServerRef,
}
use sftpgo_operator.Copies.Memory.{◌>>=◌, pure, Copied, copied, flat, pointer, slice, slice_of}
use sftpgo_operator.Copies.Foreign.{Foreign}
use sftpgo_operator.Copies.User.Types.{
  TimeInterval, UserFilters, S3FilesystemConfig, AzureFilesystemConfig, SftpFilesystemConfig,
  CryptFilesystemConfig, FilesystemConfig, SftpGoUserSpec, SftpGoUserStatus, SftpGoUser,
  SftpGoUserList,
}

abbrev pub secret_ref : Copied SecretRef SecretRef
secret_ref = flat

abbrev pub virtual_folder : Copied VirtualFolder VirtualFolder
virtual_folder = flat

abbrev pub quota : Copied Quota Quota
quota = flat

abbrev pub bandwidth_limits : Copied BandwidthLimits BandwidthLimits
bandwidth_limits = flat

abbrev pub rate_limits : Copied RateLimits RateLimits
rate_limits = flat

abbrev pub gcs_filesystem_config : Copied GcsFilesystemConfig GcsFilesystemConfig
gcs_filesystem_config = flat

abbrev pub server_ref : Copied ServerRef ServerRef
server_ref = flat

abbrev pub time_interval : Copied TimeInterval TimeIntervalValue
time_interval =
    copied (λ c. record { start = c.start; end = c.end; days = slice.value c.days })
      (λ c. slice.addresses c.days)
      (λ c. do days ← slice.deep_copy_into c.days; pure (record c { days = days }))

abbrev pub user_filters : Copied UserFilters UserFiltersValue
user_filters =
    copied
      (λ c. record {
        require_password_change = c.require_password_change;
        require_totp = c.require_totp;
        external_auth_hook = c.external_auth_hook;
        allowed_commands = slice.value c.allowed_commands;
        time_intervals = (slice_of time_interval).value c.time_intervals;
      })
      (λ c.
        slice.addresses c.allowed_commands ++ (slice_of time_interval).addresses c.time_intervals)
      (λ c. do
        allowed_commands ← slice.deep_copy_into c.allowed_commands
        time_intervals ← (slice_of time_interval).deep_copy_into c.time_intervals
        pure (record c { allowed_commands = allowed_commands; time_intervals = time_intervals }))

abbrev pub s3_filesystem_config : Copied S3FilesystemConfig S3FilesystemConfigValue
s3_filesystem_config =
    copied
      (λ c. record {
        bucket = c.bucket;
        region = c.region;
        access_key = c.access_key;
        access_secret = (pointer secret_ref).value c.access_secret;
        endpoint = c.endpoint;
        storage_class = c.storage_class;
        acl = c.acl;
        upload_part_size = c.upload_part_size;
        key_prefix = c.key_prefix;
      })
      (λ c. (pointer secret_ref).addresses c.access_secret)
      (λ c. do
        access_secret ← (pointer secret_ref).deep_copy_into c.access_secret
        pure (record c { access_secret = access_secret }))

abbrev pub azure_filesystem_config : Copied AzureFilesystemConfig AzureFilesystemConfigValue
azure_filesystem_config =
    copied
      (λ c. record {
        container = c.container;
        account_name = c.account_name;
        account_key = (pointer secret_ref).value c.account_key;
        sas_url = c.sas_url;
        endpoint_suffix = c.endpoint_suffix;
        upload_block_size = c.upload_block_size;
        key_prefix = c.key_prefix;
      })
      (λ c. (pointer secret_ref).addresses c.account_key)
      (λ c. do
        account_key ← (pointer secret_ref).deep_copy_into c.account_key
        pure (record c { account_key = account_key }))

abbrev pub sftp_filesystem_config : Copied SftpFilesystemConfig SftpFilesystemConfigValue
sftp_filesystem_config =
    copied
      (λ c. record {
        host = c.host;
        port = c.port;
        username = c.username;
        password = (pointer secret_ref).value c.password;
        private_key = (pointer secret_ref).value c.private_key;
        remote_path = c.remote_path;
      })
      (λ c.
        (pointer secret_ref).addresses c.password ++ (pointer secret_ref).addresses c.private_key)
      (λ c. do
        password ← (pointer secret_ref).deep_copy_into c.password
        private_key ← (pointer secret_ref).deep_copy_into c.private_key
        pure (record c { password = password; private_key = private_key }))

abbrev pub crypt_filesystem_config : Copied CryptFilesystemConfig CryptFilesystemConfigValue
crypt_filesystem_config =
    copied
      (λ c. record {
        passphrase = (pointer secret_ref).value c.passphrase;
        physical_path = c.physical_path;
      })
      (λ c. (pointer secret_ref).addresses c.passphrase)
      (λ c. do
        passphrase ← (pointer secret_ref).deep_copy_into c.passphrase
        pure (record c { passphrase = passphrase }))

abbrev pub filesystem_config : Copied FilesystemConfig FilesystemConfigValue
filesystem_config =
    copied
      (λ c. record {
        provider = c.provider;
        s3 = (pointer s3_filesystem_config).value c.s3;
        gcs = (pointer gcs_filesystem_config).value c.gcs;
        azure = (pointer azure_filesystem_config).value c.azure;
        sftp = (pointer sftp_filesystem_config).value c.sftp;
        crypt = (pointer crypt_filesystem_config).value c.crypt;
      })
      (λ c.
        (pointer s3_filesystem_config).addresses c.s3
        ++ (pointer gcs_filesystem_config).addresses c.gcs
        ++ (pointer azure_filesystem_config).addresses c.azure
        ++ (pointer sftp_filesystem_config).addresses c.sftp
        ++ (pointer crypt_filesystem_config).addresses c.crypt)
      (λ c. do
        s3 ← (pointer s3_filesystem_config).deep_copy_into c.s3
        gcs ← (pointer gcs_filesystem_config).deep_copy_into c.gcs
        azure ← (pointer azure_filesystem_config).deep_copy_into c.azure
        sftp ← (pointer sftp_filesystem_config).deep_copy_into c.sftp
        crypt ← (pointer crypt_filesystem_config).deep_copy_into c.crypt
        pure (record c { s3 = s3; gcs = gcs; azure = azure; sftp = sftp; crypt = crypt }))

abbrev pub sftp_go_user_spec : Copied SftpGoUserSpec SftpGoUserSpecValue
sftp_go_user_spec =
    copied
      (λ c. record {
        username = c.username;
        password = c.password;
        password_secret_ref = (pointer secret_ref).value c.password_secret_ref;
        public_keys = slice.value c.public_keys;
        public_keys_secret_ref = (pointer secret_ref).value c.public_keys_secret_ref;
        email = c.email;
        status = c.status;
        home_dir = c.home_dir;
        virtual_folders = slice.value c.virtual_folders;
        permissions = slice.value c.permissions;
        quota = (pointer quota).value c.quota;
        bandwidth_limits = (pointer bandwidth_limits).value c.bandwidth_limits;
        rate_limits = (pointer rate_limits).value c.rate_limits;
        max_sessions = c.max_sessions;
        max_concurrent_transfers = c.max_concurrent_transfers;
        allowed_ip = slice.value c.allowed_ip;
        denied_ip = slice.value c.denied_ip;
        protocols = slice.value c.protocols;
        groups = slice.value c.groups;
        filters = user_filters.value c.filters;
        filesystem = (pointer filesystem_config).value c.filesystem;
        server_ref = c.server_ref;
      })
      (λ c.
        (pointer secret_ref).addresses c.password_secret_ref
        ++ slice.addresses c.public_keys
        ++ (pointer secret_ref).addresses c.public_keys_secret_ref
        ++ slice.addresses c.virtual_folders
        ++ slice.addresses c.permissions
        ++ (pointer quota).addresses c.quota
        ++ (pointer bandwidth_limits).addresses c.bandwidth_limits
        ++ (pointer rate_limits).addresses c.rate_limits
        ++ slice.addresses c.allowed_ip
        ++ slice.addresses c.denied_ip
        ++ slice.addresses c.protocols
        ++ slice.addresses c.groups
        ++ user_filters.addresses c.filters
        ++ (pointer filesystem_config).addresses c.filesystem)
      (λ c. do
        password_secret_ref ← (pointer secret_ref).deep_copy_into c.password_secret_ref
        public_keys ← slice.deep_copy_into c.public_keys
        public_keys_secret_ref ← (pointer secret_ref).deep_copy_into c.public_keys_secret_ref
        virtual_folders ← slice.deep_copy_into c.virtual_folders
        permissions ← slice.deep_copy_into c.permissions
        quota ← (pointer quota).deep_copy_into c.quota
        bandwidth_limits ← (pointer bandwidth_limits).deep_copy_into c.bandwidth_limits
        rate_limits ← (pointer rate_limits).deep_copy_into c.rate_limits
        allowed_ip ← slice.deep_copy_into c.allowed_ip
        denied_ip ← slice.deep_copy_into c.denied_ip
        protocols ← slice.deep_copy_into c.protocols
        groups ← slice.deep_copy_into c.groups
        filters ← user_filters.deep_copy_into c.filters
        filesystem ← (pointer filesystem_config).deep_copy_into c.filesystem
        pure (record c {
          password_secret_ref = password_secret_ref;
          public_keys = public_keys;
          public_keys_secret_ref = public_keys_secret_ref;
          virtual_folders = virtual_folders;
          permissions = permissions;
          quota = quota;
          bandwidth_limits = bandwidth_limits;
          rate_limits = rate_limits;
          allowed_ip = allowed_ip;
          denied_ip = denied_ip;
          protocols = protocols;
          groups = groups;
          filters = filters;
          filesystem = filesystem;
        }))

abbrev pub sftp_go_user_status :
    {K : Kinds} (F : Foreign K) → Copied (SftpGoUserStatus F) SftpGoUserStatusValue
sftp_go_user_status F =
    copied
      (λ c. record {
        phase = c.phase;
        user_id = c.user_id;
        conditions = (slice_of F.condition.methods).value c.conditions;
        last_synced = (pointer F.time.methods).value c.last_synced;
      })
      (λ c.
        (slice_of F.condition.methods).addresses c.conditions
        ++ (pointer F.time.methods).addresses c.last_synced)
      (λ c. do
        conditions ← (slice_of F.condition.methods).deep_copy_into c.conditions
        last_synced ← (pointer F.time.methods).deep_copy_into c.last_synced
        pure (record c { conditions = conditions; last_synced = last_synced }))

abbrev pub sftp_go_user : {K : Kinds} (F : Foreign K) → Copied (SftpGoUser F) (SftpGoUserValue K)
sftp_go_user F =
    copied
      (λ c. record {
        meta = F.object_meta.methods.value c.meta;
        spec = sftp_go_user_spec.value c.spec;
        status = (sftp_go_user_status F).value c.status;
      })
      (λ c.
        F.object_meta.methods.addresses c.meta
        ++ sftp_go_user_spec.addresses c.spec
        ++ (sftp_go_user_status F).addresses c.status)
      (λ c. do
        meta ← F.object_meta.methods.deep_copy_into c.meta
        spec ← sftp_go_user_spec.deep_copy_into c.spec
        status ← (sftp_go_user_status F).deep_copy_into c.status
        pure (record c { meta = meta; spec = spec; status = status }))

abbrev pub sftp_go_user_list :
    {K : Kinds} (F : Foreign K) → Copied (SftpGoUserList F) (F.ListMeta × List (SftpGoUserValue K))
sftp_go_user_list F =
    copied (λ c. (F.list_meta.methods.value c.list_meta, (slice_of (sftp_go_user F)).value c.items))
      (λ c.
        F.list_meta.methods.addresses c.list_meta ++ (slice_of (sftp_go_user F)).addresses c.items)
      (λ c. do
        list_meta ← F.list_meta.methods.deep_copy_into c.list_meta
        items ← (slice_of (sftp_go_user F)).deep_copy_into c.items
        pure (record { list_meta = list_meta; items = items }))
