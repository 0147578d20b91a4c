-- ===== src/Pipeline.antt =====
-- internal/controller/monitorpod_controller.go: from the logs of a MonitorPod's pods to the goroutines
-- that `streamPodLogs` starts with `go m.dispatchAlert(...)`.
pub mod Alerted
pub mod Effects
use smart_log.Base.{String, Bool, Option, none, some, List, [], ◌∷◌, ◌++◌, map}
use smart_log.Base.Int.{ℤ}
use smart_log.Errors.{Result}
use smart_log.Api.{MonitorPod, Pod, AlertRecord}
use smart_log.Cluster.{Cluster}
use smart_log.Templates.{Tools}
use smart_log.Http.{Http}
use smart_log.Stream.{Turn, Dispatch, stream_pod_logs}
use smart_log.Dispatcher.Limited.{Call}

-- A pod that is followed, and what its log stream gives.
pub record Followed : Type 0 where
  pub pod : Pod
  pub stream : Result (List Turn)

-- A goroutine that a stream starts.
pub record Goroutine : Type 0 where
  pub pod : Pod
  pub container : String
  pub dispatch : Dispatch

module _ (compile : String → Option (String → Bool)) where
  unfoldable pub started_by : MonitorPod → Followed → List Goroutine
  started_by mp f = elim (stream_pod_logs compile mp f.pod f.stream) [
    | none ↦ []
    | some (container, sent_off) ↦
        map (λ d. record { pod = f.pod; container = container; dispatch = d }) sent_off
  ]

  unfoldable pub goroutines : MonitorPod → List Followed → List Goroutine
  unfolding started_by
  goroutines mp [] = []
  goroutines mp (f ∷ rest) = started_by mp f ++ goroutines mp rest

module _ (C : Cluster) (http : Http C.State) (ai_http : ℤ → Http C.State) (tools : Tools)
    (set_owner : MonitorPod → AlertRecord → Result AlertRecord) where
  -- `go m.dispatchAlert(ctx, mp, pod, fullLogEvent, rule, containerName)`, in the state of the world
  -- by the time that the goroutine runs.
  unfoldable pub call_of : MonitorPod → Goroutine × C.State → Call C http ai_http tools set_owner
  call_of mp (g, s) = record {
    mp = mp;
    pod = g.pod;
    rule = g.dispatch.rule;
    container = g.container;
    line = g.dispatch.event;
    state = s;
  }
