-- ===== src/Copies/Faithful.antt =====
-- The copy stays what it was, so the comparison in internal/controller/alert_controller.go sees exactly
-- the changes of the value model.
use smart_log.Base.{◌≡◌, refl, ap, none, inl, inr}
use smart_log.Errors.{Result-cases}
use smart_log.Api.{NamespacedName, Alert, AlertStatus-discrete}
use smart_log.Cluster.{Cluster}
use mathlib.Core.Logic.{ite}
use smart_log.Alerts
use smart_log.Alerts.{validate_alert}
use smart_log.Conditions.{ready_condition}
use smart_log.Copies.{values, copiers, Memory, copy_alert_conditions, update_changed, attempt}
use smart_log.DeepCopy.SpecsCopied.{alert_status}
use smart_log.Copies.Shown.{CopiesConditions}
use smart_log.Copies.Compared.{MemoryLaws, compared-same, compared-differ}

alert_conditions-CopiesConditions : CopiesConditions copy_alert_conditions
unfolding copy_alert_conditions alert_status
alert_conditions-CopiesConditions P m a below h =
    let done = (alert_status values copiers).copies P m (record { conditions = a }) below h in
    record { grown = done.grown; kept = done.kept; alike = done.alike }

module _ (C : Cluster) (M : Memory) (laws : MemoryLaws C M) where
  update_changed_faithful :
      (s : C.State) (alert : Alert)
      → update_changed C M s alert
        ≡ ite
            (AlertStatus-discrete alert.status (Alerts.with_condition C s alert).status)
            (none, s)
            (C.update_alert_status s (Alerts.with_condition C s alert))
  unfolding update_changed Alerts.with_condition
  update_changed_faithful s alert =
      let ready =
        ready_condition (validate_alert (C.get_secret s) alert) "Alert configuration is valid" in
      let xs = alert.status.conditions in
      elim (AlertStatus-discrete alert.status (Alerts.with_condition C s alert).status)
        as (λ d.
          update_changed C M s alert
          ≡ ite d (none, s) (C.update_alert_status s (Alerts.with_condition C s alert))) [
            | yes same ↦
                let one =
                  compared-same C M laws copy_alert_conditions alert_conditions-CopiesConditions
                    (C.clock s) xs ready (ap (λ st. st.conditions) same) in
                rw (update_changed, one) refl
            | no differ ↦
                let (false_eq, ys_eq) =
                  compared-differ C M laws copy_alert_conditions alert_conditions-CopiesConditions
                    (C.clock s) xs ready (λ e. differ (λ i. record { conditions = e i })) in
                rw (update_changed, false_eq, ys_eq) refl
          ]

  -- The alert reconciler on the heap does what the model on values does.
  pub attempt_faithful :
      (key : NamespacedName) (s : C.State) → attempt C M key s ≡ Alerts.attempt C key s
  unfolding attempt Alerts.attempt
  attempt_faithful key s = elim (Result-cases (C.get_alert s key)) [
    | inl (alert, e) ↦ rw (attempt, Alerts.attempt, e) (update_changed_faithful s alert)
    | inr (x, e) ↦ rw (attempt, Alerts.attempt, e) refl
  ]
