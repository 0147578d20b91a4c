-- ===== src/Monitors/Ready.antt =====
-- What a reconcile of a MonitorPod reports.
use mathlib.Core.Logic.{ite}
use smart_log.Base.{
  String, ℕ, ◌≡◌, refl, sym, subst, ap, ◌∙◌, ◌⊎◌, inl, inr, Bool, true, false, Option, none, some,
  List, length,
}
use smart_log.Errors.{ok, err, Result-cases, error_text}
use smart_log.Api.{
  NamespacedName, Pod, MonitorPod, MonitorPodStatus-discrete, ConditionStatus, condition_true,
  condition_false,
}
use smart_log.Cluster.{Cluster, HasHelpers, is_true}
use smart_log.Tasks.{Registry}
use smart_log.Monitors.{with_ready, with_count, deferred_update, set_up, reconcile_found, reconcile}

-- The pods that the selector gives, if it is valid and they can be listed.
unfoldable pub selected : (C : Cluster) → C.State → MonitorPod → Option (List Pod)
selected C s mp = elim (C.label_selector_as_selector mp.spec.selector) [
  | err e ↦ none
  | ok selector ↦ elim (C.list_pods s mp.namespace selector) [ err e ↦ none | ok pods ↦ some pods ]
]

abbrev pub any : {A : Type 0} → Option A → Bool
any none = false
any (some a) = true

abbrev pub counted : ℕ → Option (List Pod) → ℕ
counted n none = n
counted n (some pods) = length pods

-- Only the status differs; it is `Ready` if there is a list of pods, and counts them if so.
pub record Reports (C : Cluster) (s : C.State) (mp updated : MonitorPod) : Type 0 where
  pub kept : updated ≡ record mp { status = updated.status }
  pub ready : C.is_status_condition_true updated.status.conditions "Ready" ≡ any (selected C s mp)
  pub count :
      updated.status.monitored_pods_count ≡ counted mp.status.monitored_pods_count (selected C s mp)

module _ (C : Cluster) (helpers : HasHelpers C) where
  -- The state is left alone where the status is there already, and else gets one update of the status.
  abbrev pub Written : C.State → MonitorPod → MonitorPod → C.State → Type 0
  Written s mp updated t =
      ((mp.status ≡ updated.status) × (t ≡ s)) ⊎ (t ≡ (C.update_monitor_pod_status s updated).1)

  deferred_update-Written :
      (s : C.State) (mp updated : MonitorPod)
      → Written s mp updated (deferred_update C mp updated s)
  unfolding deferred_update
  deferred_update-Written s mp updated =
      elim (MonitorPodStatus-discrete mp.status updated.status)
        as (λ d. Written s mp updated (ite d s (C.update_monitor_pod_status s updated).1)) [
          | yes same ↦ inl (same, refl)
          | no differ ↦ inr refl
        ]

  with_ready-true :
      (s : C.State) (status : ConditionStatus) (reason text : String) (mp : MonitorPod)
      → C.is_status_condition_true (with_ready C s status reason text mp).status.conditions "Ready"
        ≡ is_true status
  unfolding with_ready
  with_ready-true s status reason text mp = rw helpers.is_true-set

  -- The end of a reconcile: its update of a status with the condition `Ready`.
  abbrev Finished : C.State → MonitorPod → C.State → Type 0
  Finished s mp t = (updated : MonitorPod) × Reports C s mp updated × Written s mp updated t

  finish :
      (s : C.State) (mp updated : MonitorPod) (t : C.State)
      → Reports C s mp updated
      → t ≡ deferred_update C mp updated s
      → Finished s mp t
  finish s mp updated t reports e = (
    updated,
    reports,
    subst (Written s mp updated) (sym e) (deferred_update-Written s mp updated),
  )

  unready-Reports :
      (s : C.State) (mp : MonitorPod) (reason text : String)
      → selected C s mp ≡ none
      → Reports C s mp (with_ready C s condition_false reason text mp)
  unfolding with_ready
  unready-Reports s mp reason text e = record {
    kept = refl;
    ready = with_ready-true s condition_false reason text mp ∙ sym (ap any e);
    count = sym (ap (counted mp.status.monitored_pods_count) e);
  }

  set_up-Reports :
      (s : C.State) (mp : MonitorPod) (pods : List Pod)
      → selected C s mp ≡ some pods
      → Reports C s mp (set_up C s pods mp)
  unfolding set_up with_count with_ready
  set_up-Reports s mp pods e = record {
    kept = refl;
    ready =
        with_ready-true s condition_true "SetupComplete"
          "MonitorPod is configured correctly and monitoring pods." (with_count C (length pods) mp)
        ∙ sym (ap any e);
    count = sym (ap (counted mp.status.monitored_pods_count) e);
  }

  -- A reconcile of a MonitorPod that exists writes at most once, and then the status: `Ready` exactly
  -- when the selector is valid and the pods can be listed, with their number if so. It writes nothing
  -- only when the status says that already.
  pub reconcile_monitor-Reports :
      (name : NamespacedName) (s : C.State) (mp : MonitorPod) (r : Registry MonitorPod)
      → C.get_monitor_pod s name ≡ ok mp
      → (updated : MonitorPod) × Reports C s mp updated
        × Written s mp updated (reconcile C name s r).1
  unfolding reconcile reconcile_found selected
  reconcile_monitor-Reports name s mp r found =
      elim (Result-cases (C.label_selector_as_selector mp.spec.selector)) [
        | inr (x, e) ↦
            finish s mp (with_ready C s condition_false "InvalidSelector" (error_text x) mp) _
              (unready-Reports s mp "InvalidSelector" (error_text x) (rw (selected, e) refl))
              (rw (reconcile, found, reconcile_found, e) refl)
        | inl (selector, e) ↦ elim (Result-cases (C.list_pods s mp.namespace selector)) [
          | inr (x, f) ↦
              finish s mp (with_ready C s condition_false "ListPodsFailed" (error_text x) mp) _
                (unready-Reports s mp "ListPodsFailed" (error_text x) (rw (selected, e, f) refl))
                (rw (reconcile, found, reconcile_found, e, f) refl)
          | inl (pods, f) ↦
              finish s mp (set_up C s pods mp) _
                (set_up-Reports s mp pods (rw (selected, e, f) refl))
                (rw (reconcile, found, reconcile_found, e, f) refl)
        ]
      ]
