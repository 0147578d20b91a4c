-- ===== src/Names/Long.antt =====
-- Names of allowed characters: what `sanitize_for_kubernetes` keeps, and where it cuts.
use smart_log.Base.{ℕ, zero, suc, ◌≡◌, ◌≢◌, refl, ◌∙◌, Bool, true, false, List, [], ◌∷◌, ◌++◌}
use smart_log.Base.{arith, ltb, length, take, take_all, map}
use smart_log.Base.{Bool-cases, inl, inr}
use smart_log.Names.{dash, is_allowed, to_lower, replace_runs, trim_left, trim_right}
use smart_log.Names.{max_length, truncate, sanitize_for_kubernetes}
use smart_log.Names.Sanitized.{AllAllowed, starts_with_dash, ends_with_dash}

map-to_lower : (u : ℕ → ℕ) (s : List ℕ) → AllAllowed s → map (to_lower u) s ≡ s
unfolding to_lower is_allowed
map-to_lower u [] h = refl
map-to_lower u (c ∷ cs) h = ground (arith, map-to_lower u cs h.1)

replace_runs_allowed : (inside : Bool) (s : List ℕ) → AllAllowed s → replace_runs inside s ≡ s
unfolding replace_runs
replace_runs_allowed inside [] h = refl
replace_runs_allowed inside (c ∷ cs) h = rw h.0 (rw (replace_runs_allowed false cs h.1))

trim_left_kept : (s : List ℕ) → starts_with_dash s ≡ false → trim_left s ≡ s
unfolding trim_left
trim_left_kept [] h = refl
trim_left_kept (c ∷ cs) h = rw h

trim_right_kept : (s : List ℕ) → ends_with_dash s ≡ false → trim_right s ≡ s
unfolding trim_right
trim_right_kept [] h = refl
trim_right_kept (c ∷ []) h = ground arith
trim_right_kept (c ∷ d ∷ cs) h = rw (trim_right_kept (d ∷ cs) h, trim_right)

truncate-take : (s : List ℕ) → truncate s ≡ take max_length s
unfolding truncate
truncate-take s = elim (Bool-cases (ltb max_length (length s))) [
  | inl e ↦ rw e
  | inr e ↦ rw (e, take_all 63 s (ground arith))
]

-- A name of allowed characters with no dash at either end is kept, up to its first 63 characters.
pub sanitize-take :
    (unicode_lower : ℕ → ℕ) (name : List ℕ)
    → AllAllowed name
    → starts_with_dash name ≡ false
    → ends_with_dash name ≡ false
    → sanitize_for_kubernetes unicode_lower name ≡ take max_length name
unfolding sanitize_for_kubernetes
sanitize-take u name h left right =
    rw (map-to_lower u name h, replace_runs_allowed false name h, trim_left_kept name left)
      (rw (trim_right_kept name right) (truncate-take name))

starts-append :
    (s t : List ℕ) → 0 ≢ length s → starts_with_dash s ≡ false → starts_with_dash (s ++ t) ≡ false
starts-append [] t n h = absurd (n refl)
starts-append (c ∷ cs) t n h = h

ends-append_cons :
    (s : List ℕ) (c : ℕ) (t : List ℕ) → ends_with_dash (s ++ c ∷ t) ≡ ends_with_dash (c ∷ t)
ends-append_cons [] c t = refl
ends-append_cons (d ∷ []) c t = refl
ends-append_cons (d ∷ e ∷ s) c t = ends-append_cons (e ∷ s) c t

take-append_cons :
    (n : ℕ) (s : List ℕ) (c : ℕ) (t : List ℕ)
    → length s ≡ n
    → take (suc n) (s ++ c ∷ t) ≡ s ++ c ∷ []
take-append_cons zero [] c t h = refl
take-append_cons zero (d ∷ s) c t h = absurd (omega arith)
take-append_cons (suc n) [] c t h = absurd (omega arith)
take-append_cons (suc n) (d ∷ s) c t h = rw (take-append_cons n s c t (omega arith))

-- A name of more than 63 characters, all of them allowed, with no dash at its front or its end, whose
-- 63rd character is a dash is cut behind that dash: the result ends with it.
pub sanitize_dash_end :
    (unicode_lower : ℕ → ℕ) (front : List ℕ) (c : ℕ) (back : List ℕ)
    → AllAllowed (front ++ dash ∷ c ∷ back)
    → starts_with_dash front ≡ false
    → ends_with_dash (c ∷ back) ≡ false
    → length front ≡ 62
    → ends_with_dash (sanitize_for_kubernetes unicode_lower (front ++ dash ∷ c ∷ back)) ≡ true
sanitize_dash_end u front c back h left right full = rw (
  sanitize-take u (front ++ dash ∷ c ∷ back) h (starts-append front _ (omega arith) left)
      (ends-append_cons front dash (c ∷ back) ∙ right),
  take-append_cons 62 front dash (c ∷ back) full,
  ends-append_cons front dash [],
)
