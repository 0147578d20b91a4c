-- ===== src/Targets.antt =====
-- internal/controller/monitorpod_controller.go: `getAlertsFromTarget`.
pub mod Chosen
use smart_log.Base.{String, ◌<>◌, ◌==◌, List, [], ◌∷◌, if◌then◌else◌}
use smart_log.Errors.{Result, ok, err, message}
use smart_log.Api.{Alert, AlertTarget, NamespacedName}
use smart_log.Cluster.{Cluster}

module _ (C : Cluster) where
  -- The alert in front of the others, if it is ready.
  unfoldable pub add_ready : Alert → List Alert → List Alert
  add_ready alert others =
      if C.is_status_condition_true alert.status.conditions "Ready" then alert ∷ others else others

  -- The loop over a group's members, which passes over those that it cannot get.
  unfoldable pub ready_members : C.State → String → List String → List Alert
  unfolding add_ready
  ready_members s namespace [] = []
  ready_members s namespace (name ∷ names) =
      let rest = ready_members s namespace names in
      elim (C.get_alert s (record { name = name; namespace = namespace })) [
        | err e ↦ rest
        | ok alert ↦ add_ready alert rest
      ]

  unfoldable pub get_alerts_from_target : C.State → AlertTarget → String → Result (List Alert)
  unfolding add_ready ready_members
  get_alerts_from_target s target namespace =
      let key : NamespacedName = record { name = target.name; namespace = namespace } in
      if target.kind == "Alert"
      then elim (C.get_alert s key) [ err e ↦ err e | ok alert ↦ ok (add_ready alert []) ]
      else if target.kind == "AlertGroup"
      then elim (C.get_alert_group s key) [
        | err e ↦ err e
        | ok group ↦ ok (ready_members s namespace group.spec.alert_names)
      ]
      else err (message ("unsupported alert target kind: " <> target.kind))
