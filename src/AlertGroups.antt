-- ===== src/AlertGroups.antt =====
-- internal/controller/alertgroup_controller.go: the reconciler of `AlertGroup`.
pub mod Channels
pub mod Members
pub mod Ready
pub mod Watch
use smart_log.Base.{
  ℕ, ◌+◌, String, ◌<>◌, Bool, true, false, Option, none, some, List, [], ◌∷◌, length,
}
use smart_log.Base.{if◌then◌else◌, contains}
use smart_log.Errors.{Error, message, wrapped, is_not_found, Result, ok, err}
use smart_log.Api.{NamespacedName, Alert, AlertGroup}
use smart_log.Conditions.{ready_condition}
use smart_log.Cluster.{Cluster}

-- A read of an alert, `r.Get(ctx, key, &alert)`, at the server's present state.
abbrev pub GetAlert : Type 0
GetAlert = NamespacedName → Result Alert

-- The test of one member: `none`, or the error with which the loop returns.
unfoldable pub check_member : GetAlert → (Alert → Bool) → String → String → Option Error
check_member get is_ready namespace name =
    elim (get (record { name = name; namespace = namespace })) [
      | err e ↦
          if is_not_found e
          then some (message ("member alert '" <> (name <> "' not found")))
          else some (wrapped ("failed to get member alert '" <> (name <> "': ")) e "")
      | ok alert ↦
          if is_ready alert
          then none
          else some (message ("member alert '" <> (name <> "' is not ready")))
    ]

-- The loop of `validateAlertGroupMembers`, with `readyCount`.
unfoldable pub validate_members :
    GetAlert → (Alert → Bool) → String → List String → ℕ → ℕ × Option Error
unfolding check_member
validate_members get is_ready namespace [] ready_count = (ready_count, none)
validate_members get is_ready namespace (name ∷ names) ready_count =
    elim (check_member get is_ready namespace name) [
      | some e ↦ (ready_count, some e)
      | none ↦ validate_members get is_ready namespace names (ready_count + 1)
    ]

-- The loops of `findAlertGroupsForAlert`; the inner one stops at the first member of the name.
unfoldable pub requests_for : String → List AlertGroup → List NamespacedName
requests_for alert [] = []
requests_for alert (group ∷ groups) =
    let rest = requests_for alert groups in
    if contains group.spec.alert_names alert
    then record { name = group.name; namespace = group.namespace } ∷ rest
    else rest

abbrev to_result : Option Error → Result (Unit {0})
to_result none = ok tt
to_result (some e) = err e

module _ (C : Cluster) where
  unfoldable pub is_ready : Alert → Bool
  is_ready alert = C.is_status_condition_true alert.status.conditions "Ready"

  unfoldable pub validate_alert_group_members : C.State → AlertGroup → ℕ × Option Error
  unfolding validate_members is_ready
  validate_alert_group_members s group =
      validate_members (C.get_alert s) is_ready group.namespace group.spec.alert_names 0

  -- The group with its new status.
  unfoldable pub with_status : C.State → AlertGroup → AlertGroup
  unfolding ready_condition
  with_status s group =
      let (ready_members, validation_err) = validate_alert_group_members s group in
      record group {
        status = record {
          total_alerts = length group.spec.alert_names;
          ready_alerts = ready_members;
          conditions =
              C.set_status_condition (C.clock s) group.status.conditions (
                ready_condition (to_result validation_err) "All alert members are valid and ready");
        };
      }

  unfoldable pub reconcile : NamespacedName → C.State → Option Error × C.State
  unfolding with_status
  reconcile key s = elim (C.get_alert_group s key) [
    | err e ↦ if is_not_found e then (none, s) else (some e, s)
    | ok group ↦ C.update_alert_group_status s (with_status s group)
  ]

  unfoldable pub find_alert_groups_for_alert : C.State → Alert → List NamespacedName
  unfolding requests_for
  find_alert_groups_for_alert s alert = elim (C.list_alert_groups s alert.namespace) [
    | err e ↦ []
    | ok groups ↦ requests_for alert.name groups
  ]
