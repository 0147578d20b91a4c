-- ===== src/Monitors/Latest.antt =====
-- The monitors that run are those of the latest reconciles.
use smart_log.Base.{String, ◌==◌, eq_iff, ◌≡◌, refl, ap, ◌∙◌}
use smart_log.Base.{List, [], ◌∷◌, if◌then◌else◌, inl, inr, eq_cases, Bool-cases, subst, sym}
use smart_log.Errors.{Result, ok, err, is_not_found, Result-cases}
use smart_log.Api.{NamespacedName, key_string, MonitorPod, Pod}
use smart_log.Cluster.{Cluster, Selector}
use smart_log.Tasks.{Registry, empty_registry}
use smart_log.Tasks.Sound.{
  WellFormed, live, cancel_entry-Loose, live-cancel_entry, start-WellFormed,
}
use smart_log.Tasks.Sound.{live-start, payloads, empty-WellFormed}
use smart_log.Tasks.Stop.{stop_key-WellFormed, live-stop_key}
use smart_log.Monitors.{
  monitor_name, start_or_update_monitor, stop_monitor, reconcile, reconcile_found, set_up,
}

-- What a reconcile has to do with the monitors: nothing, end the one of its name, or follow a
-- MonitorPod in place of the one that may run.
pub data Decision : Type 0 where
  keep finish : Decision
  follow : MonitorPod → Decision

applied : Decision → NamespacedName → Registry MonitorPod → Registry MonitorPod
applied keep name r = r
applied finish name r = stop_monitor name r
applied (follow mp) name r = start_or_update_monitor mp r

module _ (C : Cluster) where
  pub decision_listed : C.State → MonitorPod → Result (List Pod) → Decision
  decision_listed s mp (err e) = keep
  decision_listed s mp (ok pods) = follow (set_up C s pods mp)

  pub decision_selected : C.State → MonitorPod → Result Selector → Decision
  decision_selected s mp (err e) = keep
  decision_selected s mp (ok selector) = decision_listed s mp (C.list_pods s mp.namespace selector)

  pub decision_found : C.State → Result MonitorPod → Decision
  decision_found s (err e) = if is_not_found e then finish else keep
  decision_found s (ok mp) = decision_selected s mp (C.label_selector_as_selector mp.spec.selector)

  -- By the MonitorPod that the server has under the name, its selector and the list of its pods.
  pub decision : NamespacedName → C.State → Decision
  decision name s = decision_found s (C.get_monitor_pod s name)

  reconcile_found-applied :
      (name : NamespacedName) (s : C.State) (mp : MonitorPod) (r : Registry MonitorPod)
      → (reconcile_found C s mp r).2 ≡ applied (decision_found s (ok mp)) name r
  unfolding reconcile_found decision_found decision_selected decision_listed applied
  reconcile_found-applied name s mp r =
      elim (Result-cases (C.label_selector_as_selector mp.spec.selector)) [
        | inl (selector, e) ↦ elim (Result-cases (C.list_pods s mp.namespace selector)) [
          | inl (pods, f) ↦ rw (reconcile_found, e, f) refl
          | inr (x, f) ↦ rw (reconcile_found, e, f) refl
        ]
        | inr (x, e) ↦ rw (reconcile_found, e) refl
      ]

  reconcile-applied :
      (name : NamespacedName) (s : C.State) (r : Registry MonitorPod)
      → (reconcile C name s r).2 ≡ applied (decision name s) name r
  unfolding reconcile decision applied decision_found
  reconcile-applied name s r = elim (Result-cases (C.get_monitor_pod s name)) [
    | inl (mp, e) ↦ rw (reconcile, e) (reconcile_found-applied name s mp r)
    | inr (x, e) ↦ elim (Bool-cases (is_not_found x)) [
      | inl f ↦ rw (reconcile, e, decision_found, f) refl
      | inr f ↦ rw (reconcile, e, decision_found, f) refl
    ]
  ]

  -- The registry after reconciles, the latest first, each in a state of the server of its own.
  pub registry_after : List (NamespacedName × C.State) → Registry MonitorPod
  registry_after [] = empty_registry
  registry_after ((name, s) ∷ earlier) = (reconcile C name s (registry_after earlier)).2

  latest_of : Decision → NamespacedName → String → List MonitorPod → List MonitorPod
  latest_of keep name k before = before
  latest_of finish name k before = if key_string name == k then [] else before
  latest_of (follow mp) name k before =
      if key_string (monitor_name mp) == k then mp ∷ [] else before

  -- What the reconciles decided about a key: the latest one that did not keep things as they were.
  pub latest : String → List (NamespacedName × C.State) → List MonitorPod
  latest k [] = []
  latest k ((name, s) ∷ earlier) = latest_of (decision name s) name k (latest k earlier)

  applied-Sound :
      (d : Decision) (name : NamespacedName) (k : String) (r : Registry MonitorPod)
      → WellFormed r
      → WellFormed (applied d name r)
        × (payloads (live k (applied d name r).tasks)
            ≡ latest_of d name k (payloads (live k r.tasks)))
  unfolding applied latest_of stop_monitor start_or_update_monitor
  applied-Sound keep name k r w = (w, refl)
  applied-Sound finish name k r w = (
    stop_key-WellFormed (key_string name) r w,
    elim (eq_cases (key_string name) k) [
      | inl e ↦ rw (live-stop_key k (key_string name) r w, (eq_iff (key_string name) k).1 e) refl
      | inr e ↦ rw (live-stop_key k (key_string name) r w, e) refl
    ],
  )
  applied-Sound (follow mp) name k r w = (
    start-WellFormed _ mp _ (cancel_entry-Loose (key_string (monitor_name mp)) r w),
    live-start (key_string (monitor_name mp)) k mp _
          (cancel_entry-Loose (key_string (monitor_name mp)) r w).idle
        ∙ elim (eq_cases (key_string (monitor_name mp)) k) [
          | inl e ↦ rw ((eq_iff (key_string (monitor_name mp)) k).1 e) refl
          | inr e ↦ rw (e, live-cancel_entry (key_string (monitor_name mp)) k r w e) refl
        ],
  )

  registry_after-WellFormed :
      (history : List (NamespacedName × C.State)) → WellFormed (registry_after history)
  unfolding registry_after
  registry_after-WellFormed [] = empty-WellFormed
  registry_after-WellFormed ((name, s) ∷ earlier) =
      subst WellFormed (sym (reconcile-applied name s (registry_after earlier)))
        (applied-Sound (decision name s) name "" _ (registry_after-WellFormed earlier)).0

  -- After any reconciles, each in any state of the server, the monitor loops of a key that are not
  -- cancelled are one of the MonitorPod that the latest deciding reconcile of the key found, with the
  -- status it gave it, and none when that one found no MonitorPod or when there was none.
  pub monitors-latest :
      (k : String) (history : List (NamespacedName × C.State))
      → payloads (live k (registry_after history).tasks) ≡ latest k history
  unfolding latest registry_after live empty_registry
  monitors-latest k [] = refl
  monitors-latest k ((name, s) ∷ earlier) =
      ap (λ r. payloads (live k r.tasks)) (reconcile-applied name s (registry_after earlier))
      ∙ (applied-Sound (decision name s) name k _ (registry_after-WellFormed earlier)).1
      ∙ ap (latest_of (decision name s) name k) (monitors-latest k earlier)
