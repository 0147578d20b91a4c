-- ===== src/AlertGroups/Members.antt =====
-- What the loop over a group's members counts.
use smart_log.Base.{ℕ, ◌+◌, ◌≤◌, ◌<◌, ◌≡◌, ◌↔◌, refl, String, Bool, true, false, none}
use smart_log.Base.{append_assoc, List, [], ◌∷◌, ◌++◌, length, arith, if◌then◌else◌}
use smart_log.Errors.{ok, err}
use smart_log.Api.{Alert}
use smart_log.AlertGroups.{GetAlert, check_member, validate_members}

module _ (get : GetAlert) (is_ready : Alert → Bool) (namespace : String) where
  -- The member exists and is ready.
  unfoldable pub is_ready_member : String → Bool
  is_ready_member name = elim (get (record { name = name; namespace = namespace })) [
    | ok alert ↦ is_ready alert
    | err e ↦ false
  ]

  -- How many members there are before the first that is missing or not ready.
  unfoldable pub ready_prefix : List String → ℕ
  ready_prefix [] = 0
  ready_prefix (name ∷ names) =
      let rest = ready_prefix names in if is_ready_member name then rest + 1 else 0

  -- How many members are ready.
  unfoldable pub count_ready : List String → ℕ
  count_ready [] = 0
  count_ready (name ∷ names) = (if is_ready_member name then 1 else 0) + count_ready names

  check_member_lem :
      (name : String)
      → (check_member get is_ready namespace name ≡ none) ↔ (is_ready_member name ≡ true)
  unfolding check_member is_ready_member
  check_member_lem name = ground arith

  validate_members_onto :
      (names : List String) (ready_count : ℕ)
      → ((validate_members get is_ready namespace names ready_count).0
          ≡ ready_count + ready_prefix names)
        × (((validate_members get is_ready namespace names ready_count).1 ≡ none)
            ↔ (ready_prefix names ≡ length names))
  unfolding validate_members ready_prefix
  validate_members_onto [] ready_count = (omega arith, (λ h. refl, λ h. refl))
  validate_members_onto (name ∷ names) ready_count =
      ground (arith, check_member_lem name, validate_members_onto names (ready_count + 1))

  -- The loop counts the members before the first that is missing or not ready, and reports no error
  -- exactly when this is every member.
  pub validate_members-ready_prefix :
      (names : List String)
      → ((validate_members get is_ready namespace names 0).0 ≡ ready_prefix names)
        × (((validate_members get is_ready namespace names 0).1 ≡ none)
            ↔ (ready_prefix names ≡ length names))
  validate_members-ready_prefix names =
      let loop = validate_members_onto names 0 in (omega (arith, loop.0), loop.1)

  count_ready-append_le :
      (front back : List String) → count_ready back ≤ count_ready (front ++ back)
  unfolding count_ready
  count_ready-append_le [] back = omega arith
  count_ready-append_le (name ∷ front) back = omega (arith, count_ready-append_le front back)

  ready_prefix-lt :
      (front : List String) (bad : String) (back : List String)
      → is_ready_member bad ≡ false
      → 0 < count_ready back
      → ready_prefix (front ++ bad ∷ back) < count_ready (front ++ bad ∷ back)
  unfolding ready_prefix count_ready
  ready_prefix-lt [] bad back h some_ready = ground arith
  ready_prefix-lt (name ∷ front) bad back h some_ready = ground (
    arith,
    ready_prefix-lt front bad back,
    count_ready-append_le (front ++ bad ∷ []) back,
    append_assoc front (bad ∷ []) back,
  )
