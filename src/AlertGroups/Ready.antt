-- ===== src/AlertGroups/Ready.antt =====
-- What a finished reconcile of a group leaves on the server.
use mathlib.Core.Path.{fun_ext}
use smart_log.Base.{ℕ, ◌≡◌, ◌↔◌, refl, sym, subst, true, Option, none, some}
use smart_log.Base.{inl, inr, arith, length}
use smart_log.Errors.{Error, ok, Result-cases}
use smart_log.Api.{NamespacedName, AlertGroup}
use smart_log.Conditions.{succeeded, is_true-set_ready}
use smart_log.Cluster.{Cluster, HasHelpers}
use smart_log.AlertGroups.{
  GetAlert, is_ready, validate_members, validate_alert_group_members, with_status,
}
use smart_log.AlertGroups.{reconcile, to_result}
use smart_log.AlertGroups.Members.{ready_prefix, validate_members-ready_prefix}

-- What the API server does with groups: a read gives the object of the name; a status update that
-- succeeds is what a later read gives, and leaves the alerts alone.
pub record StoresAlertGroups (C : Cluster) : Type 0 where
  pub named :
      (s : C.State) (key : NamespacedName) (group : AlertGroup)
      → C.get_alert_group s key ≡ ok group
      → (group.name ≡ key.name) × (group.namespace ≡ key.namespace)
  pub stored :
      (s t : C.State) (group : AlertGroup)
      → C.update_alert_group_status s group ≡ (none, t)
      → C.get_alert_group t (record { name = group.name; namespace = group.namespace }) ≡ ok group
  pub alerts_kept :
      (s t : C.State) (group : AlertGroup) (key : NamespacedName)
      → C.update_alert_group_status s group ≡ (none, t)
      → C.get_alert t key ≡ C.get_alert s key

module _ (C : Cluster) where
  -- How many of the group's members, from the first on, are ready, as alerts are read.
  abbrev pub ready_members : GetAlert → AlertGroup → ℕ
  ready_members get group = ready_prefix get (is_ready C) group.namespace group.spec.alert_names

  -- The three things that the status says.
  pub record Reports (get : GetAlert) (group : AlertGroup) : Type 0 where
    pub total : group.status.total_alerts ≡ length group.spec.alert_names
    pub ready : group.status.ready_alerts ≡ ready_members get group
    pub condition :
        (C.is_status_condition_true group.status.conditions "Ready" ≡ true)
        ↔ (ready_members get group ≡ length group.spec.alert_names)

to_result-succeeded : (e : Option Error) → (succeeded (to_result e) ≡ true) ↔ (e ≡ none)
to_result-succeeded none = (λ h. refl, λ h. refl)
to_result-succeeded (some e) = (λ h. cc, λ h. cc)

module _ (C : Cluster) (helpers : HasHelpers C) (store : StoresAlertGroups C) where
  with_status-Reports :
      (s : C.State) (group : AlertGroup) → Reports C (C.get_alert s) (with_status C s group)
  unfolding with_status validate_alert_group_members
  with_status-Reports s group =
      let loop =
        validate_members-ready_prefix (C.get_alert s) (is_ready C) group.namespace
          group.spec.alert_names in
      let outcome =
        (validate_members (C.get_alert s) (is_ready C) group.namespace group.spec.alert_names
          0).1 in
      let verdict = to_result-succeeded outcome in
      record {
        total = refl;
        ready = loop.0;
        condition =
            rw
              (is_true-set_ready C helpers (C.clock s) group.status.conditions (to_result outcome)
                "All alert members are valid and ready")
              (λ h. loop.1.0 (verdict.0 h), λ h. verdict.1 (loop.1.1 h));
      }

  -- When a reconcile of a group ends without an error and the group still exists, its status gives the
  -- number of its members and how many of them are ready before the first that is not, and it is
  -- `Ready` exactly when all of them are.
  pub reconcile_group-Reports :
      (key : NamespacedName) (s t : C.State) (group : AlertGroup)
      → reconcile C key s ≡ (none, t)
      → C.get_alert_group t key ≡ ok group
      → Reports C (C.get_alert t) group
  unfolding reconcile with_status
  reconcile_group-Reports key s t group h found = elim (Result-cases (C.get_alert_group s key)) [
    | inr (e, r) ↦ let h' = rw (r, reconcile) at h in let same : s ≡ t = ground arith in cc
    | inl (before, r) ↦
        let updated = with_status C s before in
        let h' : C.update_alert_group_status s updated ≡ (none, t) = rw (r, reconcile) at h in
        let same_name = store.named s key before r in
        let same_key : record { name = before.name; namespace = before.namespace } ≡ key =
          λ i. record { name = same_name.0 i; namespace = same_name.1 i } in
        let stored : C.get_alert_group t key ≡ ok updated =
          subst (λ k. C.get_alert_group t k ≡ ok updated) same_key (store.stored s t updated h') in
        let same : updated ≡ group = ground (arith, stored, found) in
        let alerts : C.get_alert s ≡ C.get_alert t =
          fun_ext λ k. sym (store.alerts_kept s t updated k h') in
        subst (Reports C (C.get_alert t)) same
          (subst (λ get. Reports C get updated) alerts (with_status-Reports s before))
  ]
