-- ===== src/Errors.antt =====
-- Go's error values, as far as the controllers look into them, and fallible results.
use smart_log.Base.{
  ◌↔◌, eq_cases, eq_refl, eq_iff, ◌==◌, if◌then◌else◌, sym, String, ◌<>◌, Bool, true, false, ◌≡◌,
  refl, ◌⊎◌, inl, inr,
}

-- An error that the API server, a context or another package made, with its text; a text that the
-- program made by `fmt.Errorf`; and one that the program wrapped by `%w` between two texts.
pub data Error : Type 0 where
  not_found conflict deadline_exceeded canceled foreign : String → Error
  message : String → Error
  wrapped : String → Error → String → Error

-- `err.Error()`
unfoldable pub error_text : Error → String
error_text (not_found text) = text
error_text (conflict text) = text
error_text (deadline_exceeded text) = text
error_text (canceled text) = text
error_text (foreign text) = text
error_text (message text) = text
error_text (wrapped before e after) = before <> (error_text e <> after)

-- `apierrors.IsNotFound`, `apierrors.IsConflict` and `errors.Is(err, context.DeadlineExceeded)` look
-- through `%w`.
unfoldable pub is_not_found : Error → Bool
is_not_found (not_found text) = true
is_not_found (wrapped before e after) = is_not_found e
is_not_found _ = false

unfoldable pub is_conflict : Error → Bool
is_conflict (conflict text) = true
is_conflict (wrapped before e after) = is_conflict e
is_conflict _ = false

unfoldable pub is_deadline_exceeded : Error → Bool
is_deadline_exceeded (deadline_exceeded text) = true
is_deadline_exceeded (wrapped before e after) = is_deadline_exceeded e
is_deadline_exceeded _ = false

pub data Result {ℓ} (A : Type ℓ) : Type ℓ where
  ok : A → Result A
  err : Error → Result A

infixl 5 ◌>>=◌
abbrev pub ◌>>=◌ {ℓ κ} : {A : Type ℓ} {B : Type κ} → Result A → (A → Result B) → Result B
ok a >>= f = f a
err e >>= f = err e

pub Result-cases {ℓ} :
    {A : Type ℓ} (r : Result A) → ((a : A) × (r ≡ ok a)) ⊎ ((e : Error) × (r ≡ err e))
Result-cases (ok a) = inl (a, refl)
Result-cases (err e) = inr (e, refl)

-- Two validations in a row succeed when both do.
pub >>=-eq-ok : (m n : Result (Unit {0})) → ((m >>= λ _. n) ≡ ok tt) ↔ ((m ≡ ok tt) × (n ≡ ok tt))
>>=-eq-ok (ok u) n = (λ h. (refl, h), λ (p, q). q)
>>=-eq-ok (err e) n = (λ h. cc, λ (p, q). cc)

-- A switch over two kinds of object succeeds when the validation of the object's own kind does.
pub switch-ok :
    {kind first second : String} {m n : Result (Unit {0})} (e : Error) {P Q : Type 0}
    → (first == second) ≡ false
    → (m ≡ ok tt) ↔ P
    → (n ≡ ok tt) ↔ Q
    → ((if kind == first then m else if kind == second then n else err e) ≡ ok tt)
      ↔ (((kind ≡ first) × P) ⊎ ((kind ≡ second) × Q))
switch-ok {kind} {first} {second} {m} {n} e {P} {Q} differ f g = elim (eq_cases kind first) [
  | inl p ↦
      rw (p, eq_refl)
        (
          λ h. inl (refl, f.0 h),
          elim [ inl x ↦ f.1 x.1 | inr x ↦ cc (differ, (eq_iff first second).1 x.0) ],
        )
  | inr p ↦ rw p (elim (eq_cases kind second) [
    | inl q ↦
        rw (q, eq_refl)
          (
            λ h. inr (refl, g.0 h),
            elim [ inl x ↦ cc (differ, (eq_iff first second).1 (sym x.0)) | inr x ↦ g.1 x.1 ],
          )
    | inr q ↦ rw q (
      λ h. cc,
      elim [
        | inl x ↦ cc (p, (eq_iff kind first).1 x.0)
        | inr x ↦ cc (q, (eq_iff kind second).1 x.0)
      ],
    )
  ])
]
