-- ===== src/MonitorLoop.antt =====
-- internal/controller/monitorpod_controller.go: `runMonitorLoop`, which follows the running pods that a
-- MonitorPod selects.
pub mod Streams
pub mod Follow
pub mod Entries
pub mod Reading
pub mod Done
use smart_log.Base.{ℕ, String, Bool, true, false, Option, none, some, List, [], ◌∷◌, map}
use smart_log.Base.{if◌then◌else◌, contains}
use smart_log.Base.Dict
use smart_log.Errors.{ok, err}
use smart_log.Api.{NamespacedName, key_string, Pod, PodPhase, pending, running, succeeded, failed}
use smart_log.Api.{unknown, MonitorPod}
use smart_log.Cluster.{Cluster}
use smart_log.Tasks.{Registry, start, cancel_entry, stop_key}

unfoldable pub is_running : PodPhase → Bool
is_running running = true
is_running pending = false
is_running succeeded = false
is_running failed = false
is_running unknown = false

unfoldable pub pod_key : Pod → String
pod_key pod = key_string (record { name = pod.name; namespace = pod.namespace })

-- The set `currentPods`.
unfoldable pub current_pods : List Pod → List String
unfolding is_running pod_key
current_pods [] = []
current_pods (pod ∷ pods) =
    let rest = current_pods pods in if is_running pod.phase then pod_key pod ∷ rest else rest

-- The loop over the map, by the keys that it has at the start: the entries of pods that are not
-- current are cancelled and deleted.
unfoldable pub drop_stale : List String → List String → Registry Pod → Registry Pod
drop_stale current [] r = r
drop_stale current (key ∷ keys) r =
    drop_stale current keys (if contains current key then r else stop_key key r)

unfoldable pub start_missing : Option ℕ → Pod → Registry Pod → Registry Pod
unfolding pod_key
start_missing none pod r = start (pod_key pod) pod r
start_missing (some h) pod r = r

-- The second loop over the list: streams start for the running pods that have no entry.
unfoldable pub start_new : List Pod → Registry Pod → Registry Pod
unfolding is_running pod_key start_missing
start_new [] r = r
start_new (pod ∷ pods) r =
    start_new pods (
      if is_running pod.phase then start_missing (Dict.lookup (pod_key pod) r.cancels) pod r else r)

abbrev pub keys : Dict.Dict ℕ → List String
keys d = map (λ (k, _). k) d

-- What a list of the pods makes of the map.
unfoldable pub follow_pods : List Pod → Registry Pod → Registry Pod
unfolding drop_stale start_new current_pods
follow_pods pods r = start_new pods (drop_stale (current_pods pods) (keys r.cancels) r)

-- `case <-ctx.Done()`: every stream is cancelled.
unfoldable pub cancel_all : List String → Registry Pod → Registry Pod
cancel_all [] r = r
cancel_all (key ∷ rest) r = cancel_all rest (cancel_entry (Dict.lookup key r.cancels) r)

unfoldable pub loop_done : Registry Pod → Registry Pod
unfolding cancel_all
loop_done r = cancel_all (keys r.cancels) r

module _ (C : Cluster) where
  -- `case <-ticker.C`
  unfoldable pub loop_tick : MonitorPod → C.State → Registry Pod → Registry Pod
  unfolding follow_pods
  loop_tick mp s r = elim (C.label_selector_as_selector mp.spec.selector) [
    | err e ↦ r
    | ok selector ↦ elim (C.list_pods s mp.namespace selector) [
      | err e ↦ r
      | ok pods ↦ follow_pods pods r
    ]
  ]
