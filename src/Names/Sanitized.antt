-- ===== src/Names/Sanitized.antt =====
-- Which texts `sanitize_for_kubernetes` gives, and which it leaves alone.
use smart_log.Base.{ℕ, zero, suc, ◌≤◌, ◌≡◌, refl, Bool, true, false, not, List, [], ◌∷◌}
use smart_log.Base.{arith, ltb, length, take, length-take-le, All, map}
use smart_log.Base.{Bool-cases, inl, inr}
use smart_log.Names.{is_dash, is_allowed, to_lower, replace_runs, trim_left, trim_right}
use smart_log.Names.{max_length, truncate, sanitize_for_kubernetes}

-- All characters are of the class.
abbrev pub AllAllowed : List ℕ → Type 0
AllAllowed = All (λ c. is_allowed c ≡ true)

abbrev pub starts_with_dash : List ℕ → Bool
starts_with_dash [] = false
starts_with_dash (c ∷ cs) = is_dash c

abbrev pub ends_with_dash : List ℕ → Bool
ends_with_dash [] = false
ends_with_dash (c ∷ []) = is_dash c
ends_with_dash (c ∷ d ∷ cs) = ends_with_dash (d ∷ cs)

replace_runs-AllAllowed : (inside : Bool) (s : List ℕ) → AllAllowed (replace_runs inside s)
unfolding replace_runs is_allowed
replace_runs-AllAllowed inside [] = tt
replace_runs-AllAllowed inside (c ∷ cs) =
    ground (arith, replace_runs-AllAllowed (not (is_allowed c)) cs)

trim_left-AllAllowed : (s : List ℕ) → AllAllowed s → AllAllowed (trim_left s)
unfolding trim_left
trim_left-AllAllowed [] h = tt
trim_left-AllAllowed (c ∷ cs) h = ground (arith, trim_left-AllAllowed cs h.1)

trim_right-AllAllowed : (s : List ℕ) → AllAllowed s → AllAllowed (trim_right s)
unfolding trim_right
trim_right-AllAllowed [] h = tt
trim_right-AllAllowed (c ∷ cs) h = ground (arith, trim_right-AllAllowed cs h.1)

take-AllAllowed : (n : ℕ) (s : List ℕ) → AllAllowed s → AllAllowed (take n s)
take-AllAllowed zero s h = tt
take-AllAllowed (suc n) [] h = tt
take-AllAllowed (suc n) (c ∷ cs) h = (h.0, take-AllAllowed n cs h.1)

starts-trim_left : (s : List ℕ) → starts_with_dash (trim_left s) ≡ false
unfolding trim_left
starts-trim_left [] = refl
starts-trim_left (c ∷ cs) = ground (arith, starts-trim_left cs)

starts-trim_right :
    (s : List ℕ) → starts_with_dash s ≡ false → starts_with_dash (trim_right s) ≡ false
unfolding trim_right
starts-trim_right [] h = refl
starts-trim_right (c ∷ cs) h = ground arith

truncate_lem :
    (s : List ℕ)
    → AllAllowed s
    → starts_with_dash s ≡ false
    → AllAllowed (truncate s)
      × (length (truncate s) ≤ max_length)
      × (starts_with_dash (truncate s) ≡ false)
unfolding truncate
truncate_lem [] h d = (tt, omega arith, refl)
truncate_lem (c ∷ cs) h d = elim (Bool-cases (ltb max_length (length (c ∷ cs)))) [
  | inl e ↦ rw e (take-AllAllowed 63 (c ∷ cs) h, length-take-le 63 (c ∷ cs), d)
  | inr e ↦ rw e (h, ground arith, d)
]

-- Whatever the name, the result has only lower-case letters, digits and dashes, at most 63 of them,
-- and does not begin with a dash.
pub sanitize_bounds :
    (unicode_lower : ℕ → ℕ) (name : List ℕ)
    → let s = sanitize_for_kubernetes unicode_lower name in
      AllAllowed s × (length s ≤ max_length) × (starts_with_dash s ≡ false)
unfolding sanitize_for_kubernetes
sanitize_bounds unicode_lower name =
    let lowered = map (to_lower unicode_lower) name in
    let runs = replace_runs false lowered in
    let kept = trim_left-AllAllowed runs (replace_runs-AllAllowed false lowered) in
    truncate_lem (trim_right (trim_left runs)) (trim_right-AllAllowed (trim_left runs) kept)
      (starts-trim_right (trim_left runs) (starts-trim_left runs))
