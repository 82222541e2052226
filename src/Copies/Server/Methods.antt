-- ===== src/Copies/Server/Methods.antt =====
-- `DeepCopyInto` and `DeepCopy` of the structs of api/v1alpha1/sftpgoserver_types.go.
use sftpgo_operator.Base.{List, ◌++◌}
use sftpgo_operator.Api.Meta.{Kinds}
use sftpgo_operator.Api.ServerTypes.{
  VolumeConfig as VolumeConfigValue, DatabaseConfig as DatabaseConfigValue,
  SftpConfig as SftpConfigValue, FtpConfig as FtpConfigValue, SftpgoConfig as SftpgoConfigValue,
  SftpGoServerSpec as SftpGoServerSpecValue, SftpGoServerStatus as SftpGoServerStatusValue,
  SftpGoServer as SftpGoServerValue, CommonConfig, PortRange, WebDavConfig, HttpConfig,
  ServicePorts,
}
use sftpgo_operator.Copies.Memory.{◌>>=◌, pure, Copied, copied, flat, pointer, slice, slice_of}
use sftpgo_operator.Copies.Foreign.{Foreign}
use sftpgo_operator.Copies.Server.Types.{
  VolumeConfig, DatabaseConfig, SftpConfig, FtpConfig, SftpgoConfig, SftpGoServerSpec,
  SftpGoServerStatus, SftpGoServer, SftpGoServerList,
}

abbrev pub common_config : Copied CommonConfig CommonConfig
common_config = flat

abbrev pub port_range : Copied PortRange PortRange
port_range = flat

abbrev pub web_dav_config : Copied WebDavConfig WebDavConfig
web_dav_config = flat

abbrev pub http_config : Copied HttpConfig HttpConfig
http_config = flat

abbrev pub service_ports : Copied ServicePorts ServicePorts
service_ports = flat

abbrev pub volume_config : Copied VolumeConfig VolumeConfigValue
volume_config =
    copied
      (λ c. record {
        storage_class = (pointer flat).value c.storage_class;
        size = c.size;
        mount_path = c.mount_path;
      })
      (λ c. (pointer flat).addresses c.storage_class)
      (λ c. do
        storage_class ← (pointer flat).deep_copy_into c.storage_class
        pure (record c { storage_class = storage_class }))

abbrev pub database_config :
    {K : Kinds} (F : Foreign K) → Copied (DatabaseConfig F) DatabaseConfigValue
database_config F =
    copied
      (λ c. record {
        host = c.host;
        port = c.port;
        database = c.database;
        username = c.username;
        password_secret = (pointer F.secret_key_selector.methods).value c.password_secret;
        ssl_mode = c.ssl_mode;
      })
      (λ c. (pointer F.secret_key_selector.methods).addresses c.password_secret)
      (λ c. do
        password_secret ← (pointer F.secret_key_selector.methods).deep_copy_into c.password_secret
        pure (record c { password_secret = password_secret }))

abbrev pub sftp_config : Copied SftpConfig SftpConfigValue
sftp_config =
    copied
      (λ c. record {
        enabled = c.enabled;
        port = c.port;
        host_keys = slice.value c.host_keys;
        max_auth_tries = c.max_auth_tries;
        allowed_ssh_commands = slice.value c.allowed_ssh_commands;
        password_authentication = c.password_authentication;
        keyboard_interactive_auth = c.keyboard_interactive_auth;
      })
      (λ c. slice.addresses c.host_keys ++ slice.addresses c.allowed_ssh_commands)
      (λ c. do
        host_keys ← slice.deep_copy_into c.host_keys
        allowed_ssh_commands ← slice.deep_copy_into c.allowed_ssh_commands
        pure (record c { host_keys = host_keys; allowed_ssh_commands = allowed_ssh_commands }))

abbrev pub ftp_config : Copied FtpConfig FtpConfigValue
ftp_config =
    copied
      (λ c. record {
        enabled = c.enabled;
        port = c.port;
        passive_port_range = (pointer port_range).value c.passive_port_range;
        active_port_range = (pointer port_range).value c.active_port_range;
      })
      (λ c.
        (pointer port_range).addresses c.passive_port_range
        ++ (pointer port_range).addresses c.active_port_range)
      (λ c. do
        passive_port_range ← (pointer port_range).deep_copy_into c.passive_port_range
        active_port_range ← (pointer port_range).deep_copy_into c.active_port_range
        pure (record c {
          passive_port_range = passive_port_range;
          active_port_range = active_port_range;
        }))

abbrev pub sftpgo_config : Copied SftpgoConfig SftpgoConfigValue
sftpgo_config =
    copied
      (λ c. record {
        common = (pointer common_config).value c.common;
        sftp = (pointer sftp_config).value c.sftp;
        ftp = (pointer ftp_config).value c.ftp;
        webdav = (pointer web_dav_config).value c.webdav;
        http = (pointer http_config).value c.http;
      })
      (λ c.
        (pointer common_config).addresses c.common
        ++ (pointer sftp_config).addresses c.sftp
        ++ (pointer ftp_config).addresses c.ftp
        ++ (pointer web_dav_config).addresses c.webdav
        ++ (pointer http_config).addresses c.http)
      (λ c. do
        common ← (pointer common_config).deep_copy_into c.common
        sftp ← (pointer sftp_config).deep_copy_into c.sftp
        ftp ← (pointer ftp_config).deep_copy_into c.ftp
        webdav ← (pointer web_dav_config).deep_copy_into c.webdav
        http ← (pointer http_config).deep_copy_into c.http
        pure (record c { common = common; sftp = sftp; ftp = ftp; webdav = webdav; http = http }))

abbrev pub sftp_go_server_spec :
    {K : Kinds} (F : Foreign K) → Copied (SftpGoServerSpec F) (SftpGoServerSpecValue K)
sftp_go_server_spec F =
    copied
      (λ c. record {
        image = c.image;
        image_pull_policy = c.image_pull_policy;
        replicas = (pointer flat).value c.replicas;
        service_account = c.service_account;
        config = sftpgo_config.value c.config;
        sftp_port = c.sftp_port;
        web_port = c.web_port;
        data_volume = (pointer volume_config).value c.data_volume;
        storage_backend = c.storage_backend;
        database = (pointer (database_config F)).value c.database;
        resources = (pointer F.resource_requirements.methods).value c.resources;
        node_selector = slice.value c.node_selector;
        tolerations = (slice_of F.toleration.methods).value c.tolerations;
        affinity = (pointer F.affinity.methods).value c.affinity;
        admin_secret_ref = (pointer flat).value c.admin_secret_ref;
      })
      (λ c.
        (pointer flat).addresses c.replicas
        ++ sftpgo_config.addresses c.config
        ++ (pointer volume_config).addresses c.data_volume
        ++ (pointer (database_config F)).addresses c.database
        ++ (pointer F.resource_requirements.methods).addresses c.resources
        ++ slice.addresses c.node_selector
        ++ (slice_of F.toleration.methods).addresses c.tolerations
        ++ (pointer F.affinity.methods).addresses c.affinity
        ++ (pointer flat).addresses c.admin_secret_ref)
      (λ c. do
        replicas ← (pointer flat).deep_copy_into c.replicas
        config ← sftpgo_config.deep_copy_into c.config
        data_volume ← (pointer volume_config).deep_copy_into c.data_volume
        database ← (pointer (database_config F)).deep_copy_into c.database
        resources ← (pointer F.resource_requirements.methods).deep_copy_into c.resources
        node_selector ← slice.deep_copy_into c.node_selector
        tolerations ← (slice_of F.toleration.methods).deep_copy_into c.tolerations
        affinity ← (pointer F.affinity.methods).deep_copy_into c.affinity
        admin_secret_ref ← (pointer flat).deep_copy_into c.admin_secret_ref
        pure (record c {
          replicas = replicas;
          config = config;
          data_volume = data_volume;
          database = database;
          resources = resources;
          node_selector = node_selector;
          tolerations = tolerations;
          affinity = affinity;
          admin_secret_ref = admin_secret_ref;
        }))

abbrev pub sftp_go_server_status :
    {K : Kinds} (F : Foreign K) → Copied (SftpGoServerStatus F) SftpGoServerStatusValue
sftp_go_server_status F =
    copied
      (λ c. record {
        replicas = c.replicas;
        ready_replicas = c.ready_replicas;
        conditions = (slice_of F.condition.methods).value c.conditions;
        phase = c.phase;
        ports = c.ports;
      })
      (λ c. (slice_of F.condition.methods).addresses c.conditions)
      (λ c. do
        conditions ← (slice_of F.condition.methods).deep_copy_into c.conditions
        pure (record c { conditions = conditions }))

abbrev pub sftp_go_server :
    {K : Kinds} (F : Foreign K) → Copied (SftpGoServer F) (SftpGoServerValue K)
sftp_go_server F =
    copied
      (λ c. record {
        meta = F.object_meta.methods.value c.meta;
        spec = (sftp_go_server_spec F).value c.spec;
        status = (sftp_go_server_status F).value c.status;
      })
      (λ c.
        F.object_meta.methods.addresses c.meta
        ++ (sftp_go_server_spec F).addresses c.spec
        ++ (sftp_go_server_status F).addresses c.status)
      (λ c. do
        meta ← F.object_meta.methods.deep_copy_into c.meta
        spec ← (sftp_go_server_spec F).deep_copy_into c.spec
        status ← (sftp_go_server_status F).deep_copy_into c.status
        pure (record c { meta = meta; spec = spec; status = status }))

abbrev pub sftp_go_server_list :
    {K : Kinds} (F : Foreign K)
    → Copied (SftpGoServerList F) (F.ListMeta × List (SftpGoServerValue K))
sftp_go_server_list F =
    copied
      (λ c. (F.list_meta.methods.value c.list_meta, (slice_of (sftp_go_server F)).value c.items))
      (λ c.
        F.list_meta.methods.addresses c.list_meta
        ++ (slice_of (sftp_go_server F)).addresses c.items)
      (λ c. do
        list_meta ← F.list_meta.methods.deep_copy_into c.list_meta
        items ← (slice_of (sftp_go_server F)).deep_copy_into c.items
        pure (record { list_meta = list_meta; items = items }))
