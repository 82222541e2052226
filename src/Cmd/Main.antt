-- ===== src/Cmd/Main.antt =====
-- `main`. What it calls of other packages are the steps of a platform; each step that fails ends
-- the process with status 1.
use sftpgo_operator.Base.{
  ℕ, String, Bool, true, false, not, Option, none, some, List, [], ◌∷◌, Result, ok, err, Exec, pure,
  ◌>>=◌, ◌>>◌, ◌==◌, if◌then◌else◌,
}
use sftpgo_operator.Cmd.Slices.{Slice, Memory, empty_memory, nil_slice, append}

-- The values of the command line's flags.
pub record Flags : Type 0 where
  pub metrics_addr : String
  pub probe_addr : String
  pub leader_election : Bool
  pub secure_metrics : Bool
  pub webhook_cert_path : String
  pub webhook_cert_name : String
  pub webhook_cert_key : String
  pub metrics_cert_path : String
  pub metrics_cert_name : String
  pub metrics_cert_key : String
  pub enable_http2 : Bool

abbrev pub default_flags : Flags
default_flags = record {
  metrics_addr = "0";
  probe_addr = ":8081";
  leader_election = false;
  secure_metrics = true;
  webhook_cert_path = "";
  webhook_cert_name = "tls.crt";
  webhook_cert_key = "tls.key";
  metrics_cert_path = "";
  metrics_cert_name = "tls.crt";
  metrics_cert_key = "tls.key";
  enable_http2 = false;
}

-- `webhookCertWatcher` and `metricsCertWatcher`
pub data Watcher : Type 0 where
  webhook_watcher metrics_watcher : Watcher

-- The functions that change a `tls.Config`: `disableHTTP2`, and those that set `GetCertificate`.
pub data TlsOption : Type 0 where
  disable_http2 : TlsOption
  get_certificate : Watcher → TlsOption

-- The part of a `tls.Config` that they change.
pub record TlsConfig : Type 0 where
  pub next_protos : List String
  pub certificate : Option Watcher

abbrev pub apply_option : TlsOption → TlsConfig → TlsConfig
apply_option disable_http2 c = record c { next_protos = "http/1.1" ∷ [] }
apply_option (get_certificate watcher) c = record c { certificate = some watcher }

pub record MetricsOptions : Type 0 where
  pub bind_address : String
  pub secure_serving : Bool
  pub tls_opts : Slice
  -- a `FilterProvider` that authenticates and authorizes
  pub protected : Bool

-- `ctrl.Options`, with the TLS options that the webhook server was made with.
pub record ManagerOptions : Type 0 where
  pub metrics : MetricsOptions
  pub webhook_tls_opts : Slice
  pub health_probe_bind_address : String
  pub leader_election : Bool
  pub leader_election_id : String

pub data Controller : Type 0 where
  server_controller user_controller : Controller

pub data Step : Type 0 where
  new_watcher : Watcher → String → String → Step
  get_config : Step
  new_manager : ManagerOptions → Step
  setup : Controller → Step
  add_watcher : Watcher → Step
  add_healthz_check : String → Step
  add_readyz_check : String → Step
  start : Step

pub record Platform : Type 1 where
  pub World : Type 0
  pub perform : Step → World → Result (Unit {0}) × World
  -- `filepath.Join` of two parts
  pub join : String → String → String
  -- the capacity that `append` gives to a new array
  pub grow : ℕ → ℕ

pub record Process (P : Platform) : Type 0 where
  pub world : P.World
  pub memory : Memory TlsOption
  -- newest first
  pub trace : List (Step × Result (Unit {0}))

module _ (P : Platform) where
  abbrev pub step : Step → Exec (Process P) Unit
  step st p =
      let (r, w) = P.perform st p.world in (r, record p { world = w; trace = (st, r) ∷ p.trace })

  abbrev pub extend : TlsOption → Slice → Exec (Process P) Slice
  extend option s p =
      let (s', m) = append P.grow option s p.memory in (ok s', record p { memory = m })

  -- `tlsOpts`
  unfoldable pub tls_options : Flags → Exec (Process P) Slice
  unfolding append
  tls_options flags =
      if not flags.enable_http2 then extend disable_http2 nil_slice else pure nil_slice

  -- A watcher for the certificate in a directory, if one is given, and the TLS options with its
  -- certificate.
  unfoldable pub watch :
      Watcher → String → String → String → Slice → Exec (Process P) (Option Watcher × Slice)
  unfolding append
  watch watcher path name key tls_opts =
      if not (path == "")
      then (do
        step (new_watcher watcher (P.join path name) (P.join path key))
        extended ← extend (get_certificate watcher) tls_opts
        pure (some watcher, extended))
      else pure (none, tls_opts)

  -- The watchers and the TLS options of the webhook server, and those of the metrics server.
  unfoldable pub set_up_tls :
      Flags → Exec (Process P) ((Option Watcher × Slice) × (Option Watcher × Slice))
  unfolding tls_options watch
  set_up_tls flags = do
    tls_opts ← tls_options flags
    webhook ←
        watch webhook_watcher flags.webhook_cert_path flags.webhook_cert_name flags.webhook_cert_key
          tls_opts
    metrics ←
        watch metrics_watcher flags.metrics_cert_path flags.metrics_cert_name flags.metrics_cert_key
          tls_opts
    pure (webhook, metrics)

  abbrev pub add : Option Watcher → Exec (Process P) Unit
  add none = pure tt
  add (some watcher) = step (add_watcher watcher)

  abbrev pub manager_options : Flags → Slice → Slice → ManagerOptions
  manager_options flags webhook_tls metrics_tls = record {
    metrics = record {
      bind_address = flags.metrics_addr;
      secure_serving = flags.secure_metrics;
      tls_opts = metrics_tls;
      protected = flags.secure_metrics;
    };
    webhook_tls_opts = webhook_tls;
    health_probe_bind_address = flags.probe_addr;
    leader_election = flags.leader_election;
    leader_election_id = "ebd29f2c.sftpgo.io";
  }

  -- From `ctrl.NewManager` on.
  unfoldable pub run_manager :
      ManagerOptions → Option Watcher → Option Watcher → Exec (Process P) Unit
  run_manager options webhook metrics = do
    step get_config
    step (new_manager options)
    step (setup server_controller)
    step (setup user_controller)
    add metrics
    add webhook
    step (add_healthz_check "healthz")
    step (add_readyz_check "readyz")
    step start
    pure tt

  unfoldable pub main : Flags → Exec (Process P) Unit
  unfolding set_up_tls run_manager
  main flags = do
    tls ← set_up_tls flags
    run_manager (manager_options flags tls.0.1 tls.1.1) tls.0.0 tls.1.0

  abbrev pub started : P.World → Process P
  started w = record { world = w; memory = empty_memory; trace = [] }

  -- The status that the process ends with: `os.Exit(1)` after a step that failed.
  abbrev pub exit_status : Result (Unit {0}) → ℕ
  exit_status (ok x) = 0
  exit_status (err e) = 1
