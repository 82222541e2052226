-- ===== src/Cmd/Certificates.antt =====
-- Which TLS options reach the webhook server and the metrics server, whose lists of options begin
-- as one slice.
use sftpgo_operator.Base.{
  ℕ, suc, ◌<◌, String, ◌≡◌, ◌≢◌, Bool, false, Option, none, some, List, [], ◌∷◌, ◌++◌, map, Result,
  ok, arith, eq_iff, ◌==◌, if◌then◌else◌,
}
use sftpgo_operator.Cmd.Slices.{Slice, elements}
use sftpgo_operator.Cmd.Main.{
  Flags, Platform, Process, Watcher, webhook_watcher, metrics_watcher, TlsOption, disable_http2,
  get_certificate, set_up_tls, started, TlsConfig, apply_option,
}

-- What the flags ask for.
abbrev pub shared_options : Bool → List TlsOption
shared_options enable_http2 = if enable_http2 then [] else disable_http2 ∷ []

abbrev pub own_options : Watcher → String → List TlsOption
own_options watcher path = if path == "" then [] else get_certificate watcher ∷ []

-- The options change the configuration one after the other.
abbrev pub configure : List (Option TlsOption) → TlsConfig → TlsConfig
configure [] c = c
configure (none ∷ l) c = configure l c
configure (some option ∷ l) c = configure l (apply_option option c)

module _ (P : Platform) (flags : Flags) (w : P.World) where
  abbrev out : Result ((Option Watcher × Slice) × (Option Watcher × Slice)) × Process P
  out = set_up_tls P flags (started P w)

  -- Where the runtime gives the first array no room to spare, as Go's does for a single pointer, each
  -- server is configured by the options that its own flags ask for: HTTP/2 is switched off unless
  -- it is enabled, and the certificate is the server's own, if it has one.
  pub set_up_tls-own_options :
      {tls : (Option Watcher × Slice) × (Option Watcher × Slice)}
      → P.grow 0 ≡ 1
      → out.0 ≡ ok tls
      → (elements out.1.memory tls.0.1
          ≡ map some (
              shared_options flags.enable_http2
              ++ own_options webhook_watcher flags.webhook_cert_path))
        × (elements out.1.memory tls.1.1
            ≡ map some (
                shared_options flags.enable_http2
                ++ own_options metrics_watcher flags.metrics_cert_path))
  unfolding set_up_tls
  set_up_tls-own_options g h = ground arith

  -- Where the runtime gives the first array room to spare, both servers write their certificate to
  -- the same element of it: with HTTP/2 off and a certificate for each, the webhook server serves
  -- that of the metrics server.
  pub set_up_tls-shared_array :
      {tls : (Option Watcher × Slice) × (Option Watcher × Slice)} {n : ℕ}
      → P.grow 0 ≡ suc (suc n)
      → flags.enable_http2 ≡ false
      → flags.webhook_cert_path ≢ ""
      → flags.metrics_cert_path ≢ ""
      → out.0 ≡ ok tls
      → elements out.1.memory tls.0.1
        ≡ some disable_http2 ∷ some (get_certificate metrics_watcher) ∷ []
  unfolding set_up_tls
  set_up_tls-shared_array g off webhook metrics h =
      ground (arith, eq_iff flags.webhook_cert_path "", eq_iff flags.metrics_cert_path "")

  -- Unless HTTP/2 is enabled, both servers offer HTTP/1.1 alone, whatever room the runtime gives to
  -- arrays, as long as it is enough for what they hold.
  pub set_up_tls-next_protos :
      {tls : (Option Watcher × Slice) × (Option Watcher × Slice)} (c : TlsConfig)
      → 0 < P.grow 0
      → flags.enable_http2 ≡ false
      → out.0 ≡ ok tls
      → ((configure (elements out.1.memory tls.0.1) c).next_protos ≡ "http/1.1" ∷ [])
        × ((configure (elements out.1.memory tls.1.1) c).next_protos ≡ "http/1.1" ∷ [])
  unfolding set_up_tls
  set_up_tls-next_protos c g off h =
      ground (arith, eq_iff flags.webhook_cert_path "", eq_iff flags.metrics_cert_path "")
