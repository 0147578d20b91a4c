-- ===== src/Targets/Chosen.antt =====
-- Which alerts a group gives.
use smart_log.Base.{
  String, ◌≡◌, refl, ◌↔◌, inl, inr, true, Bool-cases, List, [], ◌∷◌, Member, ◌∙◌, sym, ap,
}
use smart_log.Errors.{Result, ok, err}
use smart_log.Api.{Alert}
use smart_log.Cluster.{Cluster}
use smart_log.Targets.{ready_members, add_ready}

ok_injective : {a b : Alert} → ok a ≡ ok b → a ≡ b
ok_injective e = cc

module _ (C : Cluster) where
  -- A member's name gives an alert that is ready.
  pub Chosen : C.State → String → List String → Alert → Type 0
  Chosen s namespace names alert =
      (name : String) × Member name names
      × (C.get_alert s (record { name = name; namespace = namespace }) ≡ ok alert)
      × (C.is_status_condition_true alert.status.conditions "Ready" ≡ true)

  -- One member in front of others that give a list.
  Chosen-cons :
      (s : C.State) (namespace name : String) (names : List String) (alert : Alert)
      (list : List Alert) (r : Result Alert)
      → C.get_alert s (record { name = name; namespace = namespace }) ≡ r
      → Member alert list ↔ Chosen s namespace names alert
      → Member alert (elim r [ err e ↦ list | ok found ↦ add_ready C found list ])
        ↔ Chosen s namespace (name ∷ names) alert
  unfolding Chosen add_ready
  Chosen-cons s namespace name names alert list (err x) e rest = (
    λ m. let (y, n, g, h) = rest.0 m in (y, inr n, g, h),
    λ (y, n, g, h). elim n [
      | inl p ↦
          absurd (cc (ap (λ z. C.get_alert s (record { name = z; namespace = namespace })) p, e, g))
      | inr q ↦ rest.1 (y, q, g, h)
    ],
  )
  Chosen-cons s namespace name names alert list (ok found) e rest =
      let is_found =
        λ (y : String) (p : y ≡ name)
            (g : C.get_alert s (record { name = y; namespace = namespace }) ≡ ok alert).
          ok_injective
            (sym g ∙ ap (λ z. C.get_alert s (record { name = z; namespace = namespace })) p ∙ e) in
      elim (Bool-cases (C.is_status_condition_true found.status.conditions "Ready")) [
        | inl f ↦ rw f (
          λ m. elim m [
            | inl p ↦ (
              name,
              inl refl,
              e ∙ ap (λ z. ok z) (sym p),
              ap (λ z. C.is_status_condition_true z.status.conditions "Ready") p ∙ f,
            )
            | inr m ↦ let (y, n, g, h) = rest.0 m in (y, inr n, g, h)
          ],
          λ (y, n, g, h). elim n [
            | inl p ↦ inl (is_found y p g)
            | inr q ↦ inr (rest.1 (y, q, g, h))
          ],
        )
        | inr f ↦ rw f (
          λ m. let (y, n, g, h) = rest.0 m in (y, inr n, g, h),
          λ (y, n, g, h). elim n [
            | inl p ↦ absurd (
                cc (
                  f,
                  h,
                  ap (λ z. C.is_status_condition_true z.status.conditions "Ready") (is_found y p g),
                ))
            | inr q ↦ rest.1 (y, q, g, h)
          ],
        )
      ]

  -- An alert goes to exactly the channels of a group that the server has and that are ready, whatever
  -- other members are missing or not ready.
  pub ready_members-Chosen :
      (s : C.State) (namespace : String) (names : List String) (alert : Alert)
      → Member alert (ready_members C s namespace names) ↔ Chosen s namespace names alert
  unfolding ready_members Chosen
  ready_members-Chosen s namespace [] alert = (λ m. elim m [ ], λ x. elim x.1 [ ])
  ready_members-Chosen s namespace (name ∷ names) alert =
      Chosen-cons s namespace name names alert _ _ refl
        (ready_members-Chosen s namespace names alert)
