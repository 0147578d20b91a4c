-- ===== src/Startup.antt =====
-- cmd/main.go: the options of the two servers, and the start of the manager. `State` is the state of the
-- framework, whose functions a `Framework` has; each step gives the error that makes `main` exit.
pub mod Complete
pub mod Options
pub mod Started
use smart_log.Base.{
  ℕ, String, ◌==◌, Bool, true, false, Option, none, some, List, [], ◌∷◌, ◌++◌, if◌then◌else◌,
}
use smart_log.Errors.{Error, Result, ok, err}
use smart_log.Slices.{Slice, Heap, nil_slice, empty_heap, append}

-- The variables of the flags.
pub record Flags : Type 0 where
  pub metrics_addr : String
  pub metrics_cert_path : String
  pub metrics_cert_name : String
  pub metrics_cert_key : String
  pub webhook_cert_path : String
  pub webhook_cert_name : String
  pub webhook_cert_key : String
  pub enable_leader_election : Bool
  pub probe_addr : String
  pub secure_metrics : Bool
  pub enable_http2 : Bool

unfoldable pub default_flags : Flags
default_flags = record {
  metrics_addr = "0";
  metrics_cert_path = "";
  metrics_cert_name = "tls.crt";
  metrics_cert_key = "tls.key";
  webhook_cert_path = "";
  webhook_cert_name = "tls.crt";
  webhook_cert_key = "tls.key";
  enable_leader_election = false;
  probe_addr = ":8081";
  secure_metrics = true;
  enable_http2 = false;
}

-- `certwatcher.CertWatcher`, by the files that it watches.
pub record CertWatcher : Type 0 where
  pub cert_file : String
  pub key_file : String

-- What the program reads and sets of `tls.Config`.
pub record TlsConfig : Type 0 where
  pub next_protos : List String
  pub get_certificate : Option CertWatcher

-- The functions `func(*tls.Config)` that `main` builds.
pub data TlsOption : Type 0 where
  disable_http2 : TlsOption
  certificate_of : CertWatcher → TlsOption

unfoldable pub apply_option : TlsOption → TlsConfig → TlsConfig
apply_option disable_http2 config = record config { next_protos = "http/1.1" ∷ [] }
apply_option (certificate_of watcher) config = record config { get_certificate = some watcher }

-- `if !enableHTTP2`
unfoldable pub tls_opts : (ℕ → ℕ → ℕ) → Flags → Slice × Heap TlsOption
tls_opts grow flags =
    if flags.enable_http2
    then (nil_slice, empty_heap)
    else append grow nil_slice disable_http2 empty_heap

-- The append of a watcher, where there is one.
unfoldable pub with_certificate :
    (ℕ → ℕ → ℕ) → Slice → Option CertWatcher → Heap TlsOption → Slice × Heap TlsOption
with_certificate grow slice none h = (slice, h)
with_certificate grow slice (some watcher) h = append grow slice (certificate_of watcher) h

-- The options of the webhook server and those of the metrics server, as the manager gets them.
unfoldable pub server_opts :
    (ℕ → ℕ → ℕ) → Flags → Option CertWatcher → Option CertWatcher → Slice × Slice × Heap TlsOption
unfolding tls_opts with_certificate
server_opts grow flags webhook_watcher metrics_watcher =
    let (opts, h₀) = tls_opts grow flags in
    let (webhook, h₁) = with_certificate grow opts webhook_watcher h₀ in
    let (metrics, h₂) = with_certificate grow opts metrics_watcher h₁ in (webhook, metrics, h₂)

-- What `main` sets of `ctrl.Options`, with the metrics server's options and the slices' heap.
pub record ManagerOptions : Type 0 where
  pub bind_address : String
  pub secure_serving : Bool
  -- `FilterProvider` is `filters.WithAuthenticationAndAuthorization`.
  pub authenticated : Bool
  pub metrics_tls_opts : Slice
  pub webhook_tls_opts : Slice
  pub tls_heap : Heap TlsOption
  pub health_probe_bind_address : String
  pub leader_election : Bool
  pub leader_election_id : String

pub data Reconciler : Type 0 where
  alert_reconciler alert_group_reconciler monitor_pod_reconciler ai_provider_reconciler : Reconciler

-- The calls of `main` that can fail once there is a manager.
pub data Step : Type 0 where
  set_up : Reconciler → Step
  new_monitor_manager add_healthz_check add_readyz_check start_manager : Step
  -- With the interval in nanoseconds.
  add_cleaner : ℕ → Step
  add_cert_watcher : CertWatcher → Step

pub record Framework : Type 1 where
  pub State : Type 0
  -- `certwatcher.New`
  pub new_cert_watcher : State → String → String → Result CertWatcher
  -- `filepath.Join`
  pub join : String → String → String
  -- The growth of arrays in the runtime.
  pub grow : ℕ → ℕ → ℕ
  -- `ctrl.GetConfigOrDie` and `ctrl.NewManager`
  pub new_manager : State → ManagerOptions → Option Error × State
  pub run : Step → State → Option Error × State

-- The ends of the process: `main` returns, or it calls `os.Exit(1)`.
pub data Exit : Type 0 where
  returned exit_one : Exit

unfoldable pub watcher_step : Option CertWatcher → List Step
watcher_step none = []
watcher_step (some watcher) = add_cert_watcher watcher ∷ []

-- The calls before the start of the manager.
unfoldable pub registrations : Option CertWatcher → Option CertWatcher → List Step
unfolding watcher_step
registrations webhook_watcher metrics_watcher =
    set_up alert_reconciler
    ∷ set_up alert_group_reconciler
    ∷ new_monitor_manager
    ∷ set_up monitor_pod_reconciler
    ∷ add_cleaner 180000000000
    ∷ set_up ai_provider_reconciler
    ∷ (watcher_step metrics_watcher
        ++ (watcher_step webhook_watcher ++ add_healthz_check ∷ add_readyz_check ∷ []))

module _ (F : Framework) where
  -- The watcher of a server's certificate, if the flag names a directory.
  unfoldable pub cert_watcher : F.State → String → String → String → Result (Option CertWatcher)
  cert_watcher s path name key =
      if path == ""
      then ok none
      else elim (F.new_cert_watcher s (F.join path name) (F.join path key)) [
        | err e ↦ err e
        | ok watcher ↦ ok (some watcher)
      ]

  unfoldable pub manager_options : Flags → Option CertWatcher → Option CertWatcher → ManagerOptions
  unfolding server_opts
  manager_options flags webhook_watcher metrics_watcher =
      let (webhook, metrics, heap) = server_opts F.grow flags webhook_watcher metrics_watcher in
      record {
        bind_address = flags.metrics_addr;
        secure_serving = flags.secure_metrics;
        authenticated = flags.secure_metrics;
        metrics_tls_opts = metrics;
        webhook_tls_opts = webhook;
        tls_heap = heap;
        health_probe_bind_address = flags.probe_addr;
        leader_election = flags.enable_leader_election;
        leader_election_id = "46fff16c.smart-tools.com";
      }

  -- The calls in their order; the first error ends the process.
  unfoldable pub run_steps : List Step → F.State → Exit × F.State
  run_steps [] s = (returned, s)
  run_steps (step ∷ steps) s = elim (F.run step s).0 [
    | some e ↦ (exit_one, (F.run step s).1)
    | none ↦ run_steps steps (F.run step s).1
  ]

  unfoldable pub start_up :
      Flags → Option CertWatcher → Option CertWatcher → F.State → Exit × F.State
  unfolding manager_options registrations run_steps
  start_up flags webhook_watcher metrics_watcher s =
      let made = F.new_manager s (manager_options flags webhook_watcher metrics_watcher) in
      elim made.0 [
        | some e ↦ (exit_one, made.1)
        | none ↦
            run_steps (registrations webhook_watcher metrics_watcher ++ start_manager ∷ []) made.1
      ]

  unfoldable pub main : Flags → F.State → Exit × F.State
  unfolding cert_watcher start_up
  main flags s =
      elim (cert_watcher s flags.webhook_cert_path flags.webhook_cert_name flags.webhook_cert_key) [
        | err e ↦ (exit_one, s)
        | ok webhook_watcher ↦
            elim (cert_watcher s flags.metrics_cert_path flags.metrics_cert_name
              flags.metrics_cert_key) [
                | err e ↦ (exit_one, s)
                | ok metrics_watcher ↦ start_up flags webhook_watcher metrics_watcher s
              ]
      ]
