-- ===== src/AlertGroups/Watch.antt =====
-- The watch on alerts misses no group.
use smart_log.Base.{ℕ, ◌+◌, String, ◌==◌, eq_iff, ◌≡◌, ◌≢◌, ◌⊎◌, inl, inr, refl, ap, Bool}
use smart_log.Base.{false, List, [], ◌∷◌, arith, Member, Member-if, Bool-cases}
use smart_log.Base.{||-eq-false, contains}
use smart_log.Api.{NamespacedName, Alert, AlertGroup}
use smart_log.AlertGroups.{GetAlert, check_member, validate_members, requests_for}

-- Two states of the alerts that differ in one of them at most.
module _ (changed : NamespacedName) (get get' : GetAlert)
    (elsewhere : (key : NamespacedName) → key ≢ changed → get key ≡ get' key)
    (is_ready : Alert → Bool) where
  member_kept :
      (namespace name : String)
      → (name == changed.name) ≡ false
      → check_member get is_ready namespace name ≡ check_member get' is_ready namespace name
  unfolding check_member
  member_kept namespace name other =
      let same =
        elsewhere (record { name = name; namespace = namespace })
          (λ e. cc (other, (eq_iff name changed.name).1 (ap (λ (k : NamespacedName). k.name) e))) in
      rw (same, check_member)

  members_kept :
      (namespace : String) (names : List String) (ready_count : ℕ)
      → contains names changed.name ≡ false
      → validate_members get is_ready namespace names ready_count
        ≡ validate_members get' is_ready namespace names ready_count
  unfolding validate_members
  members_kept namespace [] ready_count h = refl
  members_kept namespace (name ∷ names) ready_count h =
      let others = ||-eq-false (name == changed.name) (contains names changed.name) h in
      rw (member_kept namespace name others.0, validate_members)
        (ground (arith, members_kept namespace names (ready_count + 1) others.1))

  -- Of the listed groups, each one whose validation a change of one alert can alter is among the
  -- requests for that alert's name.
  pub group_requests_complete :
      (group : AlertGroup) (groups : List AlertGroup)
      → Member group groups
      → (validate_members get is_ready group.namespace group.spec.alert_names 0
          ≡ validate_members get' is_ready group.namespace group.spec.alert_names 0)
        ⊎ Member
            (record { name = group.name; namespace = group.namespace })
            (requests_for changed.name groups)
  unfolding requests_for
  group_requests_complete group [] m = elim m [ ]
  group_requests_complete group (g ∷ rest) (inl e) =
      elim (Bool-cases (contains g.spec.alert_names changed.name)) [
        | inl hit ↦
            inr (rw hit (inl (λ i. record { name = (e i).name; namespace = (e i).namespace })))
        | inr miss ↦ inl (members_kept group.namespace group.spec.alert_names 0 (rw e miss))
      ]
  group_requests_complete group (g ∷ rest) (inr m) = elim (group_requests_complete group rest m) [
    | inl same ↦ inl same
    | inr listed ↦ inr (Member-if (contains g.spec.alert_names changed.name) _ _ _ listed)
  ]
