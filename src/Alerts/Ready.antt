-- ===== src/Alerts/Ready.antt =====
-- What a finished reconcile of an alert leaves on the server.
use mathlib.Core.Logic.{if_pos, if_neg}
use smart_log.Base.{◌≡◌, refl, sym, ap, subst, ◌∙◌, Bool, none}
use smart_log.Base.{inl, inr, arith}
use mathlib.Core.Path.{fun_ext}
use smart_log.Errors.{ok, Result-cases}
use smart_log.Api.{NamespacedName, Alert, AlertStatus, AlertStatus-discrete}
use smart_log.Cluster.{Cluster, HasHelpers, Attempts-none}
use smart_log.Alerts.{validate_alert, with_condition, attempt, reconcile}
use smart_log.Secrets.{GetSecret}
use smart_log.Conditions.{succeeded, is_true-set_ready}

-- What the API server does with alerts: a read gives the object of the name; a status update that
-- succeeds is what a later read gives, and leaves the secrets alone.
pub record StoresAlerts (C : Cluster) : Type 0 where
  pub named :
      (s : C.State) (key : NamespacedName) (alert : Alert)
      → C.get_alert s key ≡ ok alert
      → (alert.name ≡ key.name) × (alert.namespace ≡ key.namespace)
  pub stored :
      (s t : C.State) (alert : Alert)
      → C.update_alert_status s alert ≡ (none, t)
      → C.get_alert t (record { name = alert.name; namespace = alert.namespace }) ≡ ok alert
  pub secrets_kept :
      (s t : C.State) (alert : Alert) (key : NamespacedName)
      → C.update_alert_status s alert ≡ (none, t)
      → C.get_secret t key ≡ C.get_secret s key

validate_alert-status :
    (get : GetSecret) (alert : Alert) (status : AlertStatus)
    → validate_alert get (record alert { status = status }) ≡ validate_alert get alert
unfolding validate_alert
validate_alert-status get alert status = refl

module _ (C : Cluster) (helpers : HasHelpers C) (store : StoresAlerts C) where
  abbrev is_ready : Alert → Bool
  is_ready alert = C.is_status_condition_true alert.status.conditions "Ready"

  -- What the theorem says of the server's state and the alert.
  abbrev Reports : C.State → Alert → Type 0
  Reports t alert = is_ready alert ≡ succeeded (validate_alert (C.get_secret t) alert)

  with_condition-Reports : (s : C.State) (alert : Alert) → Reports s (with_condition C s alert)
  unfolding with_condition
  with_condition-Reports s alert =
      is_true-set_ready C helpers (C.clock s) alert.status.conditions
        (validate_alert (C.get_secret s) alert) "Alert configuration is valid"
      ∙ ap succeeded (sym (validate_alert-status (C.get_secret s) alert _))

  -- An attempt that writes nothing had nothing to change.
  unchanged-Reports :
      (s : C.State) (alert : Alert)
      → alert.status ≡ (with_condition C s alert).status
      → Reports s alert
  unfolding with_condition
  unchanged-Reports s alert same =
      ap (λ (status : AlertStatus). C.is_status_condition_true status.conditions "Ready") same
      ∙ with_condition-Reports s alert
      ∙ ap succeeded (validate_alert-status (C.get_secret s) alert _)

  written-Reports :
      (key : NamespacedName) (s t : C.State) (before after : Alert)
      → C.get_alert s key ≡ ok before
      → C.update_alert_status s (with_condition C s before) ≡ (none, t)
      → C.get_alert t key ≡ ok after
      → Reports t after
  unfolding with_condition
  written-Reports key s t before after old h found =
      let updated = with_condition C s before in
      let same_name = store.named s key before old in
      let same_key : record { name = before.name; namespace = before.namespace } ≡ key =
        λ i. record { name = same_name.0 i; namespace = same_name.1 i } in
      let stored : C.get_alert t key ≡ ok updated =
        subst (λ k. C.get_alert t k ≡ ok updated) same_key (store.stored s t updated h) in
      let same : updated ≡ after = ground (arith, stored, found) in
      let secrets : C.get_secret s ≡ C.get_secret t =
        fun_ext λ k. sym (store.secrets_kept s t updated k h) in
      subst (Reports t) same (
        with_condition-Reports s before
        ∙ ap (λ get. succeeded (validate_alert get updated)) secrets)

  attempt-Reports :
      (key : NamespacedName) (s t : C.State) (alert : Alert)
      → attempt C key s ≡ (none, t)
      → C.get_alert t key ≡ ok alert
      → Reports t alert
  unfolding attempt
  attempt-Reports key s t alert h found = elim (Result-cases (C.get_alert s key)) [
    | inr (e, r) ↦ let h' = rw (r, attempt) at h in let same : s ≡ t = ground arith in cc
    | inl (before, r) ↦
        let h' = rw (r, attempt) at h in
        elim (AlertStatus-discrete before.status (with_condition C s before).status) [
          | yes p ↦
              let w = rw (if_pos _ p) at h' in
              let same_state : s ≡ t = ground arith in
              let same : before ≡ alert = ground (arith, r, found) in
              subst (λ u. Reports u alert) same_state
                (subst (Reports s) same (unchanged-Reports s before p))
          | no d ↦ written-Reports key s t before alert r (rw (if_neg _ d) at h') found
        ]
  ]

  -- When a reconcile of an alert ends without an error and the alert still exists, its `Ready`
  -- condition is true exactly when its validation succeeds against the secrets on the server then,
  -- after however many conflicts.
  pub reconcile_alert-Reports :
      (key : NamespacedName) (s t : C.State) (alert : Alert)
      → reconcile C key s ≡ (none, t)
      → C.get_alert t key ≡ ok alert
      → Reports t alert
  unfolding reconcile
  reconcile_alert-Reports key s t alert h found =
      let ended = Attempts-none (helpers.retries (attempt C key) s) (ap (λ x. x.0) h) in
      attempt-Reports key ended.0 t alert (ended.1 ∙ h) found
