-- ===== src/Monitors/Manager.antt =====
-- internal/controller/monitorpod_controller.go: the struct `MonitorManager`, whose client and scheme are the
-- cluster of the model, and how it is made. `new_for_config` is `kubernetes.NewForConfig`.
use smart_log.Base.{◌≡◌, refl, ap, sym, ◌∙◌, inl, inr}
use smart_log.Errors.{Result, ok, err, Result-cases}
use smart_log.Api.{MonitorPod}
use smart_log.Tasks.{Registry, empty_registry}
use smart_log.RateLimiter.{InMemoryRateLimiter, new_in_memory_rate_limiter}

pub record MonitorManager (Clientset : Type 0) : Type 0 where
  pub monitors : Registry MonitorPod
  pub clientset : Clientset
  pub rate_limiter : InMemoryRateLimiter

module _ {Config Clientset : Type 0} (new_for_config : Config → Result Clientset) where
  unfoldable pub new_monitor_manager : Config → Result (MonitorManager Clientset)
  unfolding empty_registry new_in_memory_rate_limiter
  new_monitor_manager cfg = elim (new_for_config cfg) [
    | err e ↦ err e
    | ok clientset ↦ ok (record {
      monitors = empty_registry;
      clientset = clientset;
      rate_limiter = new_in_memory_rate_limiter;
    })
  ]

  -- The limiter of a manager that is made.
  abbrev limiter_of : Result (MonitorManager Clientset) → InMemoryRateLimiter
  limiter_of (ok m) = m.rate_limiter
  limiter_of (err e) = new_in_memory_rate_limiter

  pub new_monitor_manager-new_in_memory_rate_limiter :
      (cfg : Config) (m : MonitorManager Clientset)
      → new_monitor_manager cfg ≡ ok m
      → m.rate_limiter ≡ new_in_memory_rate_limiter
  unfolding new_monitor_manager
  new_monitor_manager-new_in_memory_rate_limiter cfg m made =
      elim (Result-cases (new_for_config cfg)) [
        | inl (clientset, e) ↦ ap limiter_of (sym made) ∙ rw (new_monitor_manager, e) refl
        | inr (x, e) ↦ ap limiter_of (sym made) ∙ rw (new_monitor_manager, e) refl
      ]
