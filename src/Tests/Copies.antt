-- ===== src/Tests/Copies.antt =====
-- The sample server and a user in memory, and copies of them.
use sftpgo_operator.Base.{some, [], ◌∷◌, pos, ◌≡◌, true, arith}
use sftpgo_operator.Api.Meta.{ObjectMeta, Condition, Time, SecretKeySelector, named}
use sftpgo_operator.Server.Defaults.{apply_defaults}
use sftpgo_operator.Copies.Memory.{nil, at, flat, target, addresses_at, deep_copy_object}
use sftpgo_operator.Copies.Laws.{flat-IsDeep}
use sftpgo_operator.Copies.Foreign.{Kind, Foreign, IsForeignDeep}
use sftpgo_operator.Copies.Separate.{apart, IsSeparate}
use sftpgo_operator.Copies.Server.Types.{
  SftpGoServerSpec, SftpGoServer, SftpGoServerList, VolumeConfig,
}
use sftpgo_operator.Copies.Server.Methods.{sftp_go_server_list, sftp_go_server, sftp_go_server_spec}
use sftpgo_operator.Copies.User.Types.{SftpGoUser, SftpGoUserList, TimeInterval}
use sftpgo_operator.Copies.User.Methods.{sftp_go_user_list}
use sftpgo_operator.Copies.Objects.{
  sftp_go_server_list-deep_copy_object, sftp_go_user_list-deep_copy_object,
}
use sftpgo_operator.Copies.Defaults.{apply_defaults_in_memory, apply_defaults_in_memory-apart}
use sftpgo_operator.Tests.World.{sample_kinds}
use sftpgo_operator.Tests.Samples.{sample_server_meta}

-- Values of the types of other packages hold no references here.
abbrev plain : (V : Type 0) → Kind V
plain V = record { Memory = V; methods = flat }

abbrev plain_types : Foreign sample_kinds
plain_types = record {
  ListMeta = Unit;
  list_meta = plain Unit;
  object_meta = plain (ObjectMeta sample_kinds);
  condition = plain Condition;
  time = plain Time;
  secret_key_selector = plain SecretKeySelector;
  resource_requirements = plain Unit;
  toleration = plain Unit;
  affinity = plain Unit;
}

plain_types-IsForeignDeep : IsForeignDeep plain_types
plain_types-IsForeignDeep = record {
  list_meta = flat-IsDeep;
  object_meta = flat-IsDeep;
  condition = flat-IsDeep;
  time = flat-IsDeep;
  secret_key_selector = flat-IsDeep;
  resource_requirements = flat-IsDeep;
  toleration = flat-IsDeep;
  affinity = flat-IsDeep;
}

abbrev volume : VolumeConfig
volume = record { storage_class = at 3 "fast"; size = "20Gi"; mount_path = "" }

abbrev spec_in_memory : SftpGoServerSpec plain_types
spec_in_memory = record {
  image = "";
  image_pull_policy = "";
  replicas = nil;
  service_account = "";
  config = record { common = nil; sftp = nil; ftp = nil; webdav = nil; http = nil };
  sftp_port = pos 2222;
  web_port = pos 0;
  data_volume = at 2 volume;
  storage_backend = "";
  database = nil;
  resources = nil;
  node_selector = at 4 (("disk", "ssd") ∷ []);
  tolerations = at 5 (tt ∷ tt ∷ []);
  affinity = nil;
  admin_secret_ref = at 6 (record { name = "admin" });
}

abbrev server_in_memory : SftpGoServer plain_types
server_in_memory = record {
  meta = sample_server_meta;
  spec = spec_in_memory;
  status = record {
    replicas = pos 0;
    ready_replicas = pos 0;
    conditions = nil;
    phase = "";
    ports = record { sftp = pos 0; web = pos 0; http = pos 0; ftp = pos 0 };
  };
}

abbrev servers_in_memory : SftpGoServerList plain_types
servers_in_memory = record {
  list_meta = tt;
  items = at 1 (server_in_memory ∷ server_in_memory ∷ []);
}

sftp_go_server_list-deep_copy_object_example :
    IsSeparate
      (sftp_go_server_list plain_types)
      (at 0 servers_in_memory)
      (deep_copy_object (sftp_go_server_list plain_types) (at 0 servers_in_memory) 7).0
sftp_go_server_list-deep_copy_object_example =
    sftp_go_server_list-deep_copy_object plain_types plain_types-IsForeignDeep 7
      (at 0 servers_in_memory) (omega arith)

abbrev mornings : TimeInterval
mornings = record { start = pos 8; end = pos 12; days = at 4 (pos 1 ∷ pos 2 ∷ []) }

abbrev user_in_memory : SftpGoUser plain_types
user_in_memory = record {
  meta = named "alice" "files";
  spec = record {
    username = "alice";
    password = "";
    password_secret_ref = at 2 (record { name = "alice"; key = "password" });
    public_keys = nil;
    public_keys_secret_ref = nil;
    email = "";
    status = "";
    home_dir = "";
    virtual_folders = nil;
    permissions = at 5 ("list" ∷ "download" ∷ []);
    quota = nil;
    bandwidth_limits = nil;
    rate_limits = nil;
    max_sessions = pos 2;
    max_concurrent_transfers = pos 0;
    allowed_ip = nil;
    denied_ip = nil;
    protocols = at 6 [];
    groups = nil;
    filters = record {
      require_password_change = true;
      require_totp = true;
      external_auth_hook = "";
      allowed_commands = nil;
      time_intervals = at 3 (mornings ∷ []);
    };
    filesystem = nil;
    server_ref = record { name = "main"; namespace = "" };
  };
  status = record { phase = ""; user_id = pos 0; conditions = nil; last_synced = at 7 5 };
}

abbrev users_in_memory : SftpGoUserList plain_types
users_in_memory = record { list_meta = tt; items = at 1 (user_in_memory ∷ []) }

sftp_go_user_list-deep_copy_object_example :
    IsSeparate
      (sftp_go_user_list plain_types)
      (at 0 users_in_memory)
      (deep_copy_object (sftp_go_user_list plain_types) (at 0 users_in_memory) 8).0
sftp_go_user_list-deep_copy_object_example =
    sftp_go_user_list-deep_copy_object plain_types plain_types-IsForeignDeep 8
      (at 0 users_in_memory) (omega arith)

apply_defaults_in_memory-apart_example :
    (target
        (sftp_go_server_spec plain_types).value
        (apply_defaults_in_memory plain_types 1 server_in_memory 7).0
      ≡ some (apply_defaults ((sftp_go_server plain_types).value server_in_memory)))
    × (apart
          (addresses_at
            (sftp_go_server_spec plain_types).addresses
            (apply_defaults_in_memory plain_types 1 server_in_memory 7).0)
          (1 ∷ 2 ∷ 3 ∷ 4 ∷ 5 ∷ 6 ∷ [])
        ≡ true)
apply_defaults_in_memory-apart_example =
    apply_defaults_in_memory-apart plain_types plain_types-IsForeignDeep 1 server_in_memory 7
      (omega arith)
