-- ===== src/Examples/Starting.antt =====
-- The start of the manager, over a framework whose state lists what was done.
use smart_log.Base.{ℕ, ◌<>◌, ◌≡◌, refl, ◌⊎◌, arith, Option, none, some, List, [], ◌∷◌}
use smart_log.Errors.{Error, message, ok}
use smart_log.Slices.{contents}
use smart_log.Startup.{
  Flags, default_flags, CertWatcher, TlsConfig, Step, add_readyz_check, Framework, server_opts,
  main, exit_one,
}
use smart_log.Startup.Options.{configured, own_config, server_opts-own_config}
use smart_log.Startup.Started.{Unwatched, Managed, main-Managed}

-- A new array for at least one element.
abbrev exactly : ℕ → ℕ → ℕ
exactly capacity needed = needed

abbrev webhook_watcher : CertWatcher
webhook_watcher = record { cert_file = "hook/tls.crt"; key_file = "hook/tls.key" }

abbrev metrics_watcher : CertWatcher
metrics_watcher = record { cert_file = "metrics/tls.crt"; key_file = "metrics/tls.key" }

abbrev config : TlsConfig
config = record { next_protos = "h2" ∷ []; get_certificate = none }

server_opts-own_config_example :
    let (webhook_opts, metrics_opts, h) =
      server_opts exactly default_flags (some webhook_watcher) (some metrics_watcher) in
    (configured exactly (contents h webhook_opts) config
      ≡ some (own_config exactly default_flags (some webhook_watcher) config))
    × (configured exactly (contents h metrics_opts) config
        ≡ some (own_config exactly default_flags (some metrics_watcher) config))
server_opts-own_config_example =
    server_opts-own_config exactly default_flags (some webhook_watcher) (some metrics_watcher)
      config (omega arith)

-- The readiness check cannot be added.
abbrev fails : Step → Option Error
fails add_readyz_check = some (message "readyz")
fails _ = none

abbrev framework : Framework
framework = record {
  State = List Step;
  new_cert_watcher = λ s cert key. ok (record { cert_file = cert; key_file = key });
  join = λ a b. a <> ("/" <> b);
  grow = exactly;
  new_manager = λ s options. (none, s);
  run = λ step s. (fails step, step ∷ s);
}

abbrev flags : Flags
flags = record default_flags { webhook_cert_path = "hook" }

main_stopped : (main framework flags []).0 ≡ exit_one
unfolding main default_flags
main_stopped = refl

main-Managed_example :
    Unwatched framework flags [] (main framework flags [])
    ⊎ Managed framework flags [] (main framework flags [])
main-Managed_example = main-Managed framework flags []
