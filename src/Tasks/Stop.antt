-- ===== src/Tasks/Stop.antt =====
-- Stopping a key: its entry and its goroutine go, the others stay.
use smart_log.Base.{ℕ, String, ◌==◌, eq_iff, ◌≡◌, refl, Option, none, some}
use smart_log.Base.{[], if◌then◌else◌, inl, inr, eq_cases, subst}
use smart_log.Base.Dict
use smart_log.Tasks.{Registry, cancel, forget, cancel_entry, stop_entry, stop_key}
use smart_log.Tasks.Sound.{
  WellFormed, Loose, live, forget-WellFormed, cancel_entry-Loose, live-cancel_entry,
}

module _ {A : Type 0} where
  stop_entry-WellFormed :
      (o : Option ℕ) (key : String) (r : Registry A)
      → Dict.lookup key r.cancels ≡ o
      → WellFormed r
      → WellFormed (stop_entry o key r)
  unfolding stop_entry cancel_entry
  stop_entry-WellFormed none key r e w = w
  stop_entry-WellFormed (some h) key r e w =
      forget-WellFormed key (cancel h r)
        (subst (λ o. Loose key (cancel_entry o r)) e (cancel_entry-Loose key r w))

  pub stop_key-WellFormed :
      (key : String) (r : Registry A) → WellFormed r → WellFormed (stop_key key r)
  unfolding stop_key
  stop_key-WellFormed key r w = stop_entry-WellFormed _ key r refl w

  tasks-stop_entry :
      (o : Option ℕ) (key : String) (r : Registry A)
      → (stop_entry o key r).tasks ≡ (cancel_entry o r).tasks
  unfolding stop_entry cancel_entry forget
  tasks-stop_entry none key r = refl
  tasks-stop_entry (some h) key r = refl

  pub live-stop_key :
      (j key : String) (r : Registry A)
      → WellFormed r
      → live j (stop_key key r).tasks ≡ (if key == j then [] else live j r.tasks)
  unfolding stop_key
  live-stop_key j key r w = elim (eq_cases key j) [
    | inl p ↦
        rw ((eq_iff key j).1 p, tasks-stop_entry (Dict.lookup key r.cancels) key r)
          (subst (λ k. live k (cancel_entry (Dict.lookup key r.cancels) r).tasks ≡ []) p
            (cancel_entry-Loose key r w).idle)
    | inr p ↦
        rw (p, tasks-stop_entry (Dict.lookup key r.cancels) key r) (live-cancel_entry key j r w p)
  ]
