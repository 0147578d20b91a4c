-- ===== src/Examples/Alerting.antt =====
-- From the logs of two pods to the limiter, at concrete data.
use smart_log.Base.{ℕ, ◌≡◌, String, refl, List, [], ◌∷◌, ◌==◌, if◌then◌else◌}
use smart_log.Errors.{Result, ok, err, message}
use smart_log.Tasks.{empty_registry}
use smart_log.Monitors.Manager.{MonitorManager}
use smart_log.Api.{MonitorPod, running}
use smart_log.RateLimiter.{new_in_memory_rate_limiter}
use smart_log.Stream.{line, done, stream_pod_logs}
use smart_log.Pipeline.{Followed, Goroutine, goroutines}
use smart_log.Pipeline.Effects.{Effects}
use smart_log.Examples.Memory.{Server}
use smart_log.Examples.Following.{web}
use smart_log.Examples.Sending.{oom, hooked, limited}
use smart_log.Examples.Streams.{compile}
use smart_log.Examples.Rates.{limited_Named}
use smart_log.Dispatcher.Keys.{Named}

abbrev ruled : MonitorPod
ruled = record limited { spec = record limited.spec { rules = oom ∷ [] } }

abbrev ruled_Named : Named ruled
ruled_Named = limited_Named

abbrev followed : List Followed
followed =
    record { pod = web "web-0" running; stream = ok (line "ready" ∷ line "oom" ∷ done ∷ []) }
    ∷ record { pod = web "web-1" running; stream = ok (line "oom" ∷ line "oom" ∷ []) }
    ∷ []

abbrev oom_in : String → Goroutine
oom_in pod = record {
  pod = web pod running;
  container = "main";
  dispatch = record { event = "oom"; rule = oom };
}

followed-goroutines :
    goroutines compile ruled followed ≡ oom_in "web-0" ∷ oom_in "web-1" ∷ oom_in "web-1" ∷ []
unfolding goroutines stream_pod_logs
followed-goroutines = refl

abbrev at : ℕ → Server
at now = record hooked { time = now }

-- A later goroutine runs first.
abbrev runs : List (Goroutine × Server)
runs = (oom_in "web-1", at 3) ∷ (oom_in "web-0", at 7) ∷ (oom_in "web-1", at 400000000000) ∷ []

-- The client set is a number, made from the name of the server's host.
abbrev new_for_config : String → Result ℕ
new_for_config host = if host == "" then err (message "no host") else ok 1

abbrev manager : MonitorManager ℕ
manager = record {
  monitors = empty_registry;
  clientset = 1;
  rate_limiter = new_in_memory_rate_limiter;
}
