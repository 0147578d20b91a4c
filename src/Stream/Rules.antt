-- ===== src/Stream/Rules.antt =====
-- Which rule an event meets.
use smart_log.Base.{String, ◌≡◌, refl, ap, ◌⊎◌, inl, inr, Bool, true, false, Option, List, [], ◌∷◌}
use smart_log.Base.{◌++◌, Bool-cases, All}
use smart_log.Api.{LogRule}
use smart_log.Stream.{match_string, match_rules}

module _ (compile : String → Option (String → Bool)) where
  -- A rule that fits the event, behind rules that do not.
  pub FirstMatch : List LogRule → String → LogRule → Type 0
  FirstMatch rules event rule =
      (before : List LogRule) × (after : List LogRule) × (rules ≡ before ++ rule ∷ after)
      × All (λ r. match_string compile r.regex event ≡ false) before
      × (match_string compile rule.regex event ≡ true)

  -- An event gives one alert, for the first rule whose pattern compiles and fits the event, and
  -- none when there is no such rule.
  pub match_rules-first :
      (rules : List LogRule) (event : String)
      → (All (λ r. match_string compile r.regex event ≡ false) rules
          × (match_rules compile rules event ≡ []))
        ⊎ ((rule : LogRule) × FirstMatch rules event rule
            × (match_rules compile rules event ≡ record { event = event; rule = rule } ∷ []))
  unfolding match_rules FirstMatch
  match_rules-first [] event = inl (tt, refl)
  match_rules-first (rule ∷ rules) event =
      elim (Bool-cases (match_string compile rule.regex event)) [
        | inl e ↦ inr (rule, ([], rules, refl, tt, e), rw e refl)
        | inr e ↦ elim (match_rules-first rules event) [
          | inl (none_fits, p) ↦ inl ((e, none_fits), rw e p)
          | inr (found, (before, after, p, misses, fits), q) ↦
              inr (found, (rule ∷ before, after, ap (λ l. rule ∷ l) p, (e, misses), fits), rw e q)
        ]
      ]
