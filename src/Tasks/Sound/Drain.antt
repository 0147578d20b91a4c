-- ===== src/Tasks/Sound/Drain.antt =====
-- Cancelling the goroutines of a key, whatever else was cancelled before.
use smart_log.Base.{
  ℕ, String, ◌≡◌, refl, ap, ◌∙◌, ◌⊎◌, inl, inr, Option, none, some, List, [], ◌∷◌, Option-cases,
  Bool-cases, eqb,
}
use smart_log.Base.Dict
use smart_log.Tasks.{Registry, Task, cancel, cancel_entry}
use smart_log.Tasks.Sound.{
  WellFormed, live, handles, to_list, kept, live-cancel_task, kept_own, no_handles,
}

module _ {A : Type 0} where
  -- The key has no goroutine left, or it still has the one that the map names.
  pub Draining : String → Registry A → Type 0
  Draining k r =
      (live k r.tasks ≡ []) ⊎ (handles (live k r.tasks) ≡ to_list (Dict.lookup k r.cancels))

  pub WellFormed-Draining : (k : String) (r : Registry A) → WellFormed r → Draining k r
  unfolding Draining
  WellFormed-Draining k r w = inr (w.fits k)

  kept_either :
      (h : ℕ) (o : Option ℕ) (ts : List (Task A))
      → handles ts ≡ to_list o
      → (kept h ts ≡ []) ⊎ (kept h ts ≡ ts)
  unfolding kept
  kept_either h o [] e = inl refl
  kept_either h o (t ∷ []) e = elim (Bool-cases (eqb t.handle h)) [
    | inl p ↦ inl (rw p refl)
    | inr p ↦ inr (rw p refl)
  ]
  kept_either h none (t ∷ u ∷ ts) e = absurd cc
  kept_either h (some j) (t ∷ u ∷ ts) e = absurd cc

  kept_nil : (h : ℕ) (ts : List (Task A)) → ts ≡ [] → kept h ts ≡ []
  unfolding kept
  kept_nil h [] e = refl
  kept_nil h (t ∷ ts) e = absurd cc

  pub cancel_entry-idle :
      (o : Option ℕ) (k : String) (r : Registry A)
      → live k r.tasks ≡ []
      → live k (cancel_entry o r).tasks ≡ []
  unfolding cancel_entry cancel
  cancel_entry-idle none k r e = e
  cancel_entry-idle (some h) k r e = live-cancel_task k h r.tasks ∙ kept_nil h (live k r.tasks) e

  pub cancel_entry-Draining :
      (o : Option ℕ) (k : String) (r : Registry A) → Draining k r → Draining k (cancel_entry o r)
  unfolding cancel_entry cancel Draining
  cancel_entry-Draining none k r d = d
  cancel_entry-Draining (some h) k r (inl e) = inl (cancel_entry-idle (some h) k r e)
  cancel_entry-Draining (some h) k r (inr e) =
      elim (kept_either h (Dict.lookup k r.cancels) (live k r.tasks) e) [
        | inl p ↦ inl (live-cancel_task k h r.tasks ∙ p)
        | inr p ↦ inr (ap handles (live-cancel_task k h r.tasks ∙ p) ∙ e)
      ]

  pub cancel_own-idle :
      (k : String) (r : Registry A)
      → Draining k r
      → live k (cancel_entry (Dict.lookup k r.cancels) r).tasks ≡ []
  unfolding cancel_entry cancel Draining
  cancel_own-idle k r (inl e) = cancel_entry-idle (Dict.lookup k r.cancels) k r e
  cancel_own-idle k r (inr e) = elim (Option-cases (Dict.lookup k r.cancels)) [
    | inl p ↦ rw p (no_handles (live k r.tasks) (e ∙ ap to_list p))
    | inr (h, p) ↦
        rw p (live-cancel_task k h r.tasks ∙ kept_own h (live k r.tasks) (e ∙ ap to_list p))
  ]
