-- ===== src/Monitors.antt =====
-- internal/controller/monitorpod_controller.go: `MonitorManager`, the loop that each monitor runs, and the
-- reconciler of `MonitorPod`.
pub mod Latest
pub mod Manager
pub mod Ready
pub mod Watch
use mathlib.Core.Logic.{ite}
use smart_log.Base.{ℕ, String, ◌==◌, Bool, true, false, Option, none, some, List, [], ◌∷◌, map}
use smart_log.Base.{if◌then◌else◌, contains, length}
use smart_log.Base.Dict
use smart_log.Errors.{Error, error_text, is_not_found, ok, err}
use smart_log.Api.{NamespacedName, key_string, Condition, ConditionStatus, condition_true}
use smart_log.Api.{condition_false, Pod, PodPhase, pending, running, succeeded, failed, unknown}
use smart_log.Api.{MonitorPod, MonitorPodStatus, MonitorPodStatus-discrete}
use smart_log.Cluster.{Cluster, Selector}
use smart_log.Tasks.{Task, Registry, start, cancel, cancel_entry, stop_key}

unfoldable pub monitor_name : MonitorPod → NamespacedName
monitor_name mp = record { name = mp.name; namespace = mp.namespace }

unfoldable pub start_or_update_monitor : MonitorPod → Registry MonitorPod → Registry MonitorPod
unfolding monitor_name
start_or_update_monitor mp r =
    let key = key_string (monitor_name mp) in
    start key mp (cancel_entry (Dict.lookup key r.cancels) r)

unfoldable pub stop_monitor : NamespacedName → Registry MonitorPod → Registry MonitorPod
stop_monitor name r = stop_key (key_string name) r

module _ (C : Cluster) where
  -- The condition that the reconciler sets, at the time of the state.
  unfoldable pub with_ready : C.State → ConditionStatus → String → String → MonitorPod → MonitorPod
  with_ready s status reason text mp = record mp {
    status = record mp.status {
      conditions = C.set_status_condition (C.clock s) mp.status.conditions (record {
        kind = "Ready";
        status = status;
        reason = reason;
        text = text;
        last_transition_time = 0;
      });
    };
  }

  unfoldable pub with_count : ℕ → MonitorPod → MonitorPod
  with_count n mp = record mp { status = record mp.status { monitored_pods_count = n } }

  -- The deferred update of a changed status, whose error is only logged.
  unfoldable pub deferred_update : MonitorPod → MonitorPod → C.State → C.State
  deferred_update original updated s =
      ite (MonitorPodStatus-discrete original.status updated.status) s
        (C.update_monitor_pod_status s updated).1

  unfoldable pub set_up : C.State → List Pod → MonitorPod → MonitorPod
  unfolding with_ready with_count
  set_up s pods mp =
      with_ready s condition_true "SetupComplete"
        "MonitorPod is configured correctly and monitoring pods." (with_count (length pods) mp)

  unfoldable pub reconcile_found :
      C.State → MonitorPod → Registry MonitorPod → Option Error × C.State × Registry MonitorPod
  unfolding with_ready set_up deferred_update start_or_update_monitor
  reconcile_found s mp r = elim (C.label_selector_as_selector mp.spec.selector) [
    | err e ↦
        let updated = with_ready s condition_false "InvalidSelector" (error_text e) mp in
        (none, deferred_update mp updated s, r)
    | ok selector ↦ elim (C.list_pods s mp.namespace selector) [
      | err e ↦
          let updated = with_ready s condition_false "ListPodsFailed" (error_text e) mp in
          (some e, deferred_update mp updated s, r)
      | ok pods ↦
          let updated = set_up s pods mp in
          (none, deferred_update mp updated s, start_or_update_monitor updated r)
    ]
  ]

  unfoldable pub reconcile :
      NamespacedName → C.State → Registry MonitorPod → Option Error × C.State × Registry MonitorPod
  unfolding reconcile_found stop_monitor
  reconcile name s r = elim (C.get_monitor_pod s name) [
    | err e ↦ if is_not_found e then (none, s, stop_monitor name r) else (some e, s, r)
    | ok mp ↦ reconcile_found s mp r
  ]

  -- The loop of `findMonitorPodsForPod`.
  unfoldable pub requests_for : Pod → List MonitorPod → List NamespacedName
  unfolding monitor_name
  requests_for pod [] = []
  requests_for pod (mp ∷ monitors) =
      let rest = requests_for pod monitors in
      elim (C.label_selector_as_selector mp.spec.selector) [
        | err e ↦ rest
        | ok selector ↦ if selector pod.labels then monitor_name mp ∷ rest else rest
      ]

  unfoldable pub find_monitor_pods_for_pod : C.State → Pod → List NamespacedName
  unfolding requests_for
  find_monitor_pods_for_pod s pod = elim (C.list_monitor_pods s pod.namespace) [
    | err e ↦ []
    | ok monitors ↦ requests_for pod monitors
  ]
