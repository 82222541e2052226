-- ===== src/Cmd/Plan.antt =====
-- The order of the start-up, as a list of steps.
use sftpgo_operator.Base.{
  String, ◌≡◌, refl, ◌∙◌, ap, fun_ext, >>=_assoc, Option, none, some, List, [], ◌∷◌, ◌++◌, Result,
  ok, err, Exec, pure, ◌>>=◌, ◌>>◌, ◌==◌, Bool-cases, Result-cases, inl, inr, if◌then◌else◌,
}
use sftpgo_operator.Cmd.Slices.{Slice, Memory, append, nil_slice, empty_memory}
use sftpgo_operator.Cmd.Main.{
  Flags, Platform, Process, Watcher, webhook_watcher, metrics_watcher, TlsOption, disable_http2,
  get_certificate, ManagerOptions, server_controller, user_controller, Step, new_watcher,
  get_config, new_manager, setup, add_watcher, add_healthz_check, add_readyz_check, start, step,
  add, run_manager, set_up_tls, manager_options, main, started, watch, tls_options,
}

module _ (P : Platform) where
  -- A run through a list of steps, up to the first that fails: its result, the world that it leaves,
  -- and the steps that were made with their results, newest first.
  unfoldable pub follow :
      List Step
      → P.World
      → List (Step × Result (Unit {0}))
      → Result (Unit {0}) × P.World × List (Step × Result (Unit {0}))
  follow [] w trace = (ok tt, w, trace)
  follow (s ∷ steps) w trace =
      let (r, w') = P.perform s w in
      elim r [
        | ok x ↦ follow steps w' ((s, ok x) ∷ trace)
        | err e ↦ (err e, w', (s, err e) ∷ trace)
      ]

  abbrev pub observed :
      Result (Unit {0}) × Process P → Result (Unit {0}) × P.World × List (Step × Result (Unit {0}))
  observed (r, p) = (r, p.world, p.trace)

  -- A program that makes the steps of a list and nothing else.
  abbrev Follows : Exec (Process P) (Unit {0}) → List Step → Type 0
  Follows m steps = (p : Process P) → observed (m p) ≡ follow steps p.world p.trace

  pure-Follows : Follows (pure tt) []
  unfolding follow
  pure-Follows p = refl

  step-Follows :
      (s : Step) (m : Exec (Process P) (Unit {0})) (steps : List Step)
      → Follows m steps
      → Follows (step P s >> m) (s ∷ steps)
  unfolding follow
  step-Follows s m steps f p = elim (Result-cases (P.perform s p.world).0) [
    | inl (x, h) ↦ rw (h, follow) (f _)
    | inr (e, h) ↦ rw (h, follow) refl
  ]

  abbrev adds : Option Watcher → List Step
  adds none = []
  adds (some watcher) = add_watcher watcher ∷ []

  add-Follows :
      (watcher : Option Watcher) (m : Exec (Process P) (Unit {0})) (steps : List Step)
      → Follows m steps
      → Follows (add P watcher >> m) (adds watcher ++ steps)
  add-Follows none m steps f = f
  add-Follows (some watcher) m steps f = step-Follows (add_watcher watcher) m steps f

  abbrev managing : ManagerOptions → Option Watcher → Option Watcher → List Step
  managing options webhook metrics =
      get_config
      ∷ new_manager options
      ∷ setup server_controller
      ∷ setup user_controller
      ∷ (adds metrics
          ++ (adds webhook ++ add_healthz_check "healthz" ∷ add_readyz_check "readyz" ∷ start ∷ []))

  run_manager-Follows :
      (options : ManagerOptions) (webhook metrics : Option Watcher)
      → Follows (run_manager P options webhook metrics) (managing options webhook metrics)
  unfolding run_manager
  run_manager-Follows options webhook metrics = step-Follows get_config _ _ (
      step-Follows (new_manager options) _ _ (
        step-Follows (setup server_controller) _ _ (
          step-Follows (setup user_controller) _ _ (
            add-Follows metrics _ _ (
              add-Follows webhook _ _ (
                step-Follows (add_healthz_check "healthz") _ _ (
                  step-Follows (add_readyz_check "readyz") _ _
                    (step-Follows start (pure tt) [] pure-Follows))))))))

  abbrev watching : Watcher → String → String → String → List Step
  watching watcher path name key =
      if path == "" then [] else new_watcher watcher (P.join path name) (P.join path key) ∷ []

  abbrev watched : Watcher → String → Option Watcher
  watched watcher path = if path == "" then none else some watcher

  -- The slices that the options of the manager hold.
  abbrev shared_slice : Flags → Slice × Memory TlsOption
  shared_slice flags =
      if flags.enable_http2
      then (nil_slice, empty_memory)
      else append P.grow disable_http2 nil_slice empty_memory

  abbrev extended : Watcher → String → Slice → Memory TlsOption → Slice × Memory TlsOption
  extended watcher path s m =
      if path == "" then (s, m) else append P.grow (get_certificate watcher) s m

  abbrev options_of : Flags → ManagerOptions
  options_of flags =
      let (s, m) = shared_slice flags in
      let (webhook, m') = extended webhook_watcher flags.webhook_cert_path s m in
      manager_options P flags webhook (extended metrics_watcher flags.metrics_cert_path s m').0

  -- The steps of a start-up.
  abbrev pub plan : Flags → List Step
  plan flags =
      watching webhook_watcher flags.webhook_cert_path flags.webhook_cert_name
        flags.webhook_cert_key
      ++ (watching metrics_watcher flags.metrics_cert_path flags.metrics_cert_name
            flags.metrics_cert_key
          ++ managing (options_of flags) (watched webhook_watcher flags.webhook_cert_path)
              (watched metrics_watcher flags.metrics_cert_path))

  -- A program that, at a process with that memory, makes the steps of a list and nothing else.
  abbrev FollowsAt : Memory TlsOption → Exec (Process P) (Unit {0}) → List Step → Type 0
  FollowsAt memory m steps =
      (w : P.World) (trace : List (Step × Result (Unit {0})))
      → observed (m (record { world = w; memory = memory; trace = trace })) ≡ follow steps w trace

  watch-FollowsAt :
      (watcher : Watcher) (path name key : String) (s : Slice) (memory : Memory TlsOption)
      (k : Option Watcher × Slice → Exec (Process P) (Unit {0})) (steps : List Step)
      → FollowsAt
          (extended watcher path s memory).1
          (k (watched watcher path, (extended watcher path s memory).0))
          steps
      → FollowsAt memory
          (watch P watcher path name key s >>= k)
          (watching watcher path name key ++ steps)
  unfolding watch follow
  watch-FollowsAt watcher path name key s memory k steps f w trace =
      elim (Bool-cases (path == "")) [
        | inl e ↦ rw e (rw e at (f w trace))
        | inr e ↦
            let st = new_watcher watcher (P.join path name) (P.join path key) in
            rw e (elim (Result-cases (P.perform st w).0) [
              | inl (x, h) ↦ rw (h, follow) (rw e at (f (P.perform st w).1 ((st, ok x) ∷ trace)))
              | inr (x, h) ↦ rw (h, follow) refl
            ])
      ]

  abbrev running :
      Flags → (Option Watcher × Slice) × (Option Watcher × Slice) → Exec (Process P) Unit
  running flags tls = run_manager P (manager_options P flags tls.0.1 tls.1.1) tls.0.0 tls.1.0

  watches-FollowsAt :
      (flags : Flags) (s : Slice) (m : Memory TlsOption)
      → let (webhook, m') = extended webhook_watcher flags.webhook_cert_path s m in
        FollowsAt m
          (watch P webhook_watcher flags.webhook_cert_path flags.webhook_cert_name
              flags.webhook_cert_key s
            >>= λ webhook.
                watch P metrics_watcher flags.metrics_cert_path flags.metrics_cert_name
                  flags.metrics_cert_key s
                >>= λ metrics. running flags (webhook, metrics))
          (watching webhook_watcher flags.webhook_cert_path flags.webhook_cert_name
              flags.webhook_cert_key
            ++ (watching metrics_watcher flags.metrics_cert_path flags.metrics_cert_name
                  flags.metrics_cert_key
                ++ managing
                    (manager_options P flags webhook
                      (extended metrics_watcher flags.metrics_cert_path s m').0)
                    (watched webhook_watcher flags.webhook_cert_path)
                    (watched metrics_watcher flags.metrics_cert_path)))
  watches-FollowsAt flags s m =
      watch-FollowsAt webhook_watcher _ _ _ s m _ _
        (watch-FollowsAt metrics_watcher _ _ _ s _ _ _ (λ w trace. run_manager-Follows _ _ _ _))

  main_flat :
      (flags : Flags)
      → main P flags ≡ (
          tls_options P flags >>= λ s.
          watch P webhook_watcher flags.webhook_cert_path flags.webhook_cert_name
            flags.webhook_cert_key s
          >>= λ webhook.
              watch P metrics_watcher flags.metrics_cert_path flags.metrics_cert_name
                flags.metrics_cert_key s
              >>= λ metrics. running flags (webhook, metrics))
  unfolding main set_up_tls
  main_flat flags =
      >>=_assoc (tls_options P flags) _ (running flags)
      ∙ ap (λ k. tls_options P flags >>= k)
          (fun_ext λ s.
            >>=_assoc
              (watch P webhook_watcher flags.webhook_cert_path flags.webhook_cert_name
                flags.webhook_cert_key s)
              _ (running flags)
            ∙ ap
                (λ k.
                  watch P webhook_watcher flags.webhook_cert_path flags.webhook_cert_name
                    flags.webhook_cert_key s
                  >>= k)
                (fun_ext λ webhook.
                  >>=_assoc
                    (watch P metrics_watcher flags.metrics_cert_path flags.metrics_cert_name
                      flags.metrics_cert_key s)
                    _ (running flags)))

  -- A start-up makes the steps of the plan, in its order, up to the first that fails, and ends with
  -- that step's error, or without one if none fails.
  pub main-plan :
      (flags : Flags) (w : P.World)
      → observed (main P flags (started P w)) ≡ follow (plan flags) w []
  unfolding tls_options
  main-plan flags w = rw (main_flat flags) (elim (Bool-cases flags.enable_http2) [
    | inl e ↦ rw (e, tls_options) (watches-FollowsAt flags nil_slice empty_memory w [])
    | inr e ↦
        let (s, m) = append P.grow disable_http2 nil_slice empty_memory in
        rw (e, tls_options) (watches-FollowsAt flags s m w [])
  ])
