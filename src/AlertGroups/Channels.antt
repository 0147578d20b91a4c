-- ===== src/AlertGroups/Channels.antt =====
-- From the reconciler of groups, internal/controller/alertgroup_controller.go, to the channels of a target.
use smart_log.Base.{String, ◌≤◌, ◌≡◌, ◌↔◌, refl, Bool, true, none, List, [], ◌∷◌, length, arith}
use smart_log.Errors.{ok}
use smart_log.Api.{NamespacedName, Alert, AlertGroup, AlertTarget}
use smart_log.Cluster.{Cluster, HasHelpers}
use smart_log.AlertGroups.{GetAlert, is_ready, reconcile}
use smart_log.AlertGroups.Members.{is_ready_member, ready_prefix, count_ready}
use smart_log.AlertGroups.Ready.{StoresAlertGroups, Reports, reconcile_group-Reports}
use smart_log.Targets.{add_ready, ready_members, get_alerts_from_target}

module _ (get : GetAlert) (ready : Alert → Bool) (namespace : String) where
  ready_prefix-bounds :
      (names : List String)
      → (ready_prefix get ready namespace names ≤ count_ready get ready namespace names)
        × (count_ready get ready namespace names ≤ length names)
  unfolding ready_prefix count_ready
  ready_prefix-bounds [] = (omega arith, omega arith)
  ready_prefix-bounds (name ∷ names) = ground (arith, ready_prefix-bounds names)

  ready_prefix-all :
      (names : List String)
      → count_ready get ready namespace names ≡ length names
      → ready_prefix get ready namespace names ≡ length names
  unfolding ready_prefix count_ready
  ready_prefix-all [] h = refl
  ready_prefix-all (name ∷ names) h =
      ground (arith, h, ready_prefix-all names, ready_prefix-bounds names)

module _ (C : Cluster) where
  length-ready_members :
      (s : C.State) (namespace : String) (names : List String)
      → length (ready_members C s namespace names)
        ≡ count_ready (C.get_alert s) (is_ready C) namespace names
  unfolding ready_members count_ready is_ready_member add_ready is_ready
  length-ready_members s namespace [] = refl
  length-ready_members s namespace (name ∷ names) =
      ground (arith, length-ready_members s namespace names)

  -- What the group's status says of the channels that it gives.
  abbrev pub Gives : AlertGroup → List Alert → Type 0
  Gives group alerts =
      (group.status.ready_alerts ≤ length alerts)
      × (length alerts ≤ group.status.total_alerts)
      × ((C.is_status_condition_true group.status.conditions "Ready" ≡ true)
          ↔ (length alerts ≡ group.status.total_alerts))

  reported-Gives :
      (s : C.State) (group : AlertGroup)
      → Reports C (C.get_alert s) group
      → Gives group (ready_members C s group.namespace group.spec.alert_names)
  reported-Gives s group reports =
      let names = group.spec.alert_names in
      let counted = length-ready_members s group.namespace names in
      let bounds = ready_prefix-bounds (C.get_alert s) (is_ready C) group.namespace names in
      let all = ready_prefix-all (C.get_alert s) (is_ready C) group.namespace names in
      (
        omega (arith, reports.ready, bounds.0, counted),
        omega (arith, reports.total, bounds.1, counted),
        (
          λ h. omega (arith, reports.condition.0 h, reports.total, bounds.0, bounds.1, counted),
          λ h. reports.condition.1 (all (omega (arith, h, counted, reports.total))),
        ),
      )

abbrev pub group_named : String → AlertTarget
group_named name = record { kind = "AlertGroup"; name = name }

module _ (C : Cluster) (helpers : HasHelpers C) (store : StoresAlertGroups C) where
  -- When a reconcile of a group ends without an error and the group still exists, a target that names
  -- the group gives at least as many channels as the status counts ready, at most as many as it counts
  -- in total, and as many as that exactly when the status is `Ready`.
  pub reconcile_group-Gives :
      (key : NamespacedName) (s t : C.State) (group : AlertGroup)
      → reconcile C key s ≡ (none, t)
      → C.get_alert_group t key ≡ ok group
      → (alerts : List Alert) × (get_alerts_from_target C t (group_named key.name) key.namespace
          ≡ ok alerts)
        × Gives C group alerts
  unfolding get_alerts_from_target
  reconcile_group-Gives key s t group ended found =
      let here = (store.named t key group found).1 in
      let reports = reconcile_group-Reports C helpers store key s t group ended found in
      (
        ready_members C t group.namespace group.spec.alert_names,
        rw (get_alerts_from_target, found, here) refl,
        reported-Gives C t group reports,
      )
