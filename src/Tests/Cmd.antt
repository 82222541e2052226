-- ===== src/Tests/Cmd.antt =====
-- The start-up on two platforms.
use sftpgo_operator.Base.{
  ℕ, ◌+◌, ◌*◌, String, ◌<>◌, ◌≡◌, ◌≢◌, refl, false, Option, none, some, List, [], ◌∷◌, Result, ok,
  err, arith, eq_iff,
}
use sftpgo_operator.Base.{Error}
use sftpgo_operator.Cmd.Slices.{Slice, elements}
use sftpgo_operator.Cmd.Main.{
  Flags, default_flags, Platform, Watcher, webhook_watcher, metrics_watcher, disable_http2,
  get_certificate, Step, add_readyz_check, set_up_tls, main, started, TlsConfig,
}
use sftpgo_operator.Cmd.Certificates.{configure, set_up_tls-own_options, set_up_tls-next_protos}
use sftpgo_operator.Cmd.Plan.{plan}
use sftpgo_operator.Cmd.Exit.{Halted, main-Halted}

abbrev busy : Error
busy = record { is_not_found = false; message = "readyz exists" }

abbrev perform : Step → ℕ → Result (Unit {0}) × ℕ
perform (add_readyz_check name) n = (err busy, n + 1)
perform s n = (ok tt, n + 1)

-- A platform on which the last but one step fails; the argument is the room that it gives.
abbrev platform : (ℕ → ℕ) → Platform
platform grow = record {
  World = ℕ;
  perform = perform;
  join = λ dir name. dir <> ("/" <> name);
  grow = grow;
}

abbrev tight : Platform
tight = platform (λ n. n * 2 + 1)

abbrev roomy : Platform
roomy = platform (λ n. n + 4)

abbrev with_certificates : Flags
with_certificates = record default_flags {
  webhook_cert_path = "/webhook";
  metrics_cert_path = "/metrics";
}

main-Halted_example :
    Halted
      (plan tight with_certificates)
      []
      (main tight with_certificates (started tight 0)).0
      (main tight with_certificates (started tight 0)).1.trace
main-Halted_example = main-Halted tight with_certificates 0

abbrev tls_at : (P : Platform) → (Option Watcher × Slice) × (Option Watcher × Slice)
tls_at P = (
  (some webhook_watcher, record { array = 1; len = 2; cap = P.grow (P.grow 0) }),
  (some metrics_watcher, record { array = 2; len = 2; cap = P.grow (P.grow 0) }),
)

tight-tls : (set_up_tls tight with_certificates (started tight 0)).0 ≡ ok (tls_at tight)
unfolding set_up_tls
tight-tls = refl

set_up_tls-own_options_example :
    (elements (set_up_tls tight with_certificates (started tight 0)).1.memory (tls_at tight).0.1
      ≡ some disable_http2 ∷ some (get_certificate webhook_watcher) ∷ [])
    × (elements (set_up_tls tight with_certificates (started tight 0)).1.memory (tls_at tight).1.1
        ≡ some disable_http2 ∷ some (get_certificate metrics_watcher) ∷ [])
set_up_tls-own_options_example = set_up_tls-own_options tight with_certificates 0 refl tight-tls

abbrev shared : (Option Watcher × Slice) × (Option Watcher × Slice)
shared = (
  (some webhook_watcher, record { array = 0; len = 2; cap = 4 }),
  (some metrics_watcher, record { array = 0; len = 2; cap = 4 }),
)

roomy-tls : (set_up_tls roomy with_certificates (started roomy 0)).0 ≡ ok shared
unfolding set_up_tls
roomy-tls = refl

webhook_given : ◌≢◌ {A = String} "/webhook" ""
webhook_given = ground (arith, eq_iff "/webhook" "")

metrics_given : ◌≢◌ {A = String} "/metrics" ""
metrics_given = ground (arith, eq_iff "/metrics" "")

abbrev untouched : TlsConfig
untouched = record { next_protos = "h2" ∷ []; certificate = none }

abbrev protocols : Slice → List String
protocols s =
    (configure (elements (set_up_tls tight with_certificates (started tight 0)).1.memory s)
      untouched).next_protos

set_up_tls-next_protos_example :
    (protocols (tls_at tight).0.1 ≡ "http/1.1" ∷ [])
    × (protocols (tls_at tight).1.1 ≡ "http/1.1" ∷ [])
set_up_tls-next_protos_example =
    set_up_tls-next_protos tight with_certificates 0 untouched (omega arith) refl tight-tls
