-- ===== src/Tests/Samples.antt =====
-- A server and a user that belong together, and their controllers' environment.
use sftpgo_operator.Base.{none, some, [], ◌∷◌, pos, false}
use sftpgo_operator.Api.Meta.{ObjectMeta, named}
use sftpgo_operator.Api.ServerTypes.{SftpGoServer, SftpGoServerSpec, HttpConfig, VolumeConfig}
use sftpgo_operator.Api.UserTypes.{SftpGoUser, SftpGoUserSpec}
use sftpgo_operator.Kube.Objects.{Deployment}
use sftpgo_operator.Kube.Env.{Env}
use sftpgo_operator.Kube.Calls.{Run}
use sftpgo_operator.Sftpgo.Payload.{UserPayload, zero_payload, encode_payload}
use sftpgo_operator.Sftpgo.Client.{Client, Session}
use sftpgo_operator.Server.Desired.{deployment_for_server}
use sftpgo_operator.Tests.World.{sample_kinds, cluster}

abbrev pub sample_volume : VolumeConfig
sample_volume = record { storage_class = some "fast"; size = "20Gi"; mount_path = "" }

abbrev pub sample_http : HttpConfig
sample_http = record {
  enabled = false;
  port = pos 9090;
  enable_https = false;
  certificate_file = "";
  certificate_key_file = "";
  base_url = "";
}

abbrev pub sample_server_meta : ObjectMeta sample_kinds
sample_server_meta = record (named "main" "files") {
  uid = "u1";
  finalizers = "sftpgo.sftpgo.io/finalizer" ∷ [];
}

abbrev pub sample_server_spec : SftpGoServerSpec sample_kinds
sample_server_spec = record {
  image = "";
  image_pull_policy = "";
  replicas = none;
  service_account = "";
  config = record { common = none; sftp = none; ftp = none; webdav = none; http = none };
  sftp_port = pos 2222;
  web_port = pos 8080;
  data_volume = some sample_volume;
  storage_backend = "";
  database = none;
  resources = none;
  node_selector = [];
  tolerations = [];
  affinity = none;
  admin_secret_ref = some (record { name = "admin" });
}

abbrev pub sample_server : SftpGoServer sample_kinds
sample_server = record {
  meta = sample_server_meta;
  spec = sample_server_spec;
  status = record {
    replicas = pos 0;
    ready_replicas = pos 0;
    conditions = [];
    phase = "";
    ports = record { sftp = pos 0; web = pos 0; http = pos 0; ftp = pos 0 };
  };
}

abbrev pub sample_spec : SftpGoUserSpec
sample_spec = record {
  username = "alice";
  password = "";
  password_secret_ref = some (record { name = "alice"; key = "password" });
  public_keys = [];
  public_keys_secret_ref = none;
  email = "alice@example.com";
  status = "";
  home_dir = "/srv/alice";
  virtual_folders = [];
  permissions = "list" ∷ "download" ∷ [];
  quota = some (record { size = pos 1000; files = pos 10 });
  bandwidth_limits = some (record { upload = pos 500; download = pos 2048 });
  rate_limits = none;
  max_sessions = pos 2;
  max_concurrent_transfers = pos 0;
  allowed_ip = [];
  denied_ip = [];
  protocols = [];
  groups = "staff" ∷ [];
  filters = record {
    require_password_change = false;
    require_totp = false;
    external_auth_hook = "";
    allowed_commands = [];
    time_intervals = [];
  };
  filesystem = none;
  server_ref = record { name = "main"; namespace = "" };
}

abbrev pub sample_user : SftpGoUser sample_kinds
sample_user = record {
  meta = record (named "alice" "files") { finalizers = "sftpgo.sftpgo.io/user-finalizer" ∷ [] };
  spec = sample_spec;
  status = record { phase = ""; user_id = pos 0; conditions = []; last_synced = none };
}

abbrev pub deleted_user : SftpGoUser sample_kinds
deleted_user = record sample_user { meta = record sample_user.meta { deletion_timestamp = some 5 } }

abbrev pub sample_deployment : Deployment sample_kinds
sample_deployment = record (deployment_for_server sample_server) {
  status = record { replicas = pos 1; ready_replicas = pos 1 };
}

abbrev pub sample_env : Env sample_kinds
sample_env = cluster sample_server sample_deployment

-- SFTPGo without the user, and with it.
abbrev pub before : Run sample_env
before = record { world = record { in_sftpgo = none; clock = 100 }; trace = [] }

abbrev pub known : UserPayload
known = record zero_payload { id = pos 7; username = "alice" }

abbrev pub later : Run sample_env
later = record {
  world = record { in_sftpgo = some (encode_payload known); clock = 100 };
  trace = [];
}

abbrev pub sample_client : Client
sample_client = record {
  base_url = "http://main.files.svc.cluster.local:8080";
  username = "admin";
  password = "secret";
  token = "";
  token_exp = 0;
}

abbrev pub session : Session sample_env
session = record { client = sample_client; run = later }

-- A client that has a token for another ten minutes.
abbrev pub logged_in : Session sample_env
logged_in = record session {
  client = record sample_client { token = "t0"; token_exp = 600000000100 };
}
