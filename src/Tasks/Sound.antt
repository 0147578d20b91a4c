-- ===== src/Tasks/Sound.antt =====
-- The map names exactly the goroutines that are not cancelled.
pub mod Drain
use smart_log.Base.{ℕ, ◌<◌, String, ◌==◌, eq_iff, ◌≡◌, ◌≢◌, refl, sym, ap, ◌∙◌, false}
use smart_log.Base.{
  Option, none, some, List, [], ◌∷◌, map, if◌then◌else◌, eqb, arith, inl, inr, Option-cases,
  eq_cases, eq_refl,
}
use smart_log.Base.Dict
use smart_log.Tasks.{
  Task, Registry, empty_registry, cancel_task, cancel, start, forget, cancel_entry,
}

abbrev pub to_list : Option ℕ → List ℕ
to_list none = []
to_list (some h) = h ∷ []

module _ {A : Type 0} where
  -- The goroutines of a key that are not cancelled.
  unfoldable pub live : String → List (Task A) → List (Task A)
  live k [] = []
  live k (t ∷ ts) =
      let rest = live k ts in if t.cancelled then rest else if t.key == k then t ∷ rest else rest

  kept : ℕ → List (Task A) → List (Task A)
  kept h [] = []
  kept h (t ∷ ts) = let rest = kept h ts in if eqb t.handle h then rest else t ∷ rest

  abbrev pub handles : List (Task A) → List ℕ
  handles ts = map (λ t. t.handle) ts

  live-cancel_task :
      (k : String) (h : ℕ) (ts : List (Task A)) → live k (cancel_task h ts) ≡ kept h (live k ts)
  unfolding live cancel_task kept
  live-cancel_task k h [] = refl
  live-cancel_task k h (t ∷ ts) = ground (arith, live-cancel_task k h ts)

  kept_own : (h : ℕ) (ts : List (Task A)) → handles ts ≡ h ∷ [] → kept h ts ≡ []
  unfolding kept
  kept_own h [] e = refl
  kept_own h (t ∷ []) e = ground arith
  kept_own h (t ∷ u ∷ ts) e = absurd cc

  kept_other :
      (h : ℕ) (o : Option ℕ) (ts : List (Task A))
      → o ≢ some h
      → handles ts ≡ to_list o
      → kept h ts ≡ ts
  unfolding kept
  kept_other h o [] ne e = refl
  kept_other h none (t ∷ ts) ne e = absurd cc
  kept_other h (some j) (t ∷ []) ne e = ground arith
  kept_other h (some j) (t ∷ u ∷ ts) ne e = absurd cc

  pub record WellFormed (r : Registry A) : Type 0 where
    pub bounded : (k : String) (h : ℕ) → Dict.lookup k r.cancels ≡ some h → h < r.next
    pub apart :
        (j k : String) (h : ℕ)
        → Dict.lookup j r.cancels ≡ some h
        → Dict.lookup k r.cancels ≡ some h
        → j ≡ k
    pub fits : (k : String) → handles (live k r.tasks) ≡ to_list (Dict.lookup k r.cancels)

  -- Well formed but for the entry of a key, which has no goroutine.
  pub record Loose (key : String) (r : Registry A) : Type 0 where
    pub bounded : (k : String) (h : ℕ) → Dict.lookup k r.cancels ≡ some h → h < r.next
    pub apart :
        (j k : String) (h : ℕ)
        → Dict.lookup j r.cancels ≡ some h
        → Dict.lookup k r.cancels ≡ some h
        → j ≡ k
    pub fits :
        (k : String)
        → (key == k) ≡ false
        → handles (live k r.tasks) ≡ to_list (Dict.lookup k r.cancels)
    pub idle : live key r.tasks ≡ []

  no_handles : (ts : List (Task A)) → handles ts ≡ [] → ts ≡ []
  no_handles [] e = refl
  no_handles (t ∷ ts) e = absurd cc

  -- The cancellation of the entry of a key ends the goroutines of the key and no other's.
  live-cancel_own :
      (key : String) (h : ℕ) (r : Registry A)
      → WellFormed r
      → Dict.lookup key r.cancels ≡ some h
      → live key (cancel h r).tasks ≡ []
  unfolding cancel
  live-cancel_own key h r w e =
      rw (live-cancel_task key h r.tasks) (kept_own h (live key r.tasks) (w.fits key ∙ rw e refl))

  live-cancel_other :
      (key k : String) (h : ℕ) (r : Registry A)
      → WellFormed r
      → Dict.lookup key r.cancels ≡ some h
      → (key == k) ≡ false
      → live k (cancel h r).tasks ≡ live k r.tasks
  unfolding cancel
  live-cancel_other key k h r w e ne = rw (live-cancel_task k h r.tasks) (
      kept_other h (Dict.lookup k r.cancels) (live k r.tasks)
        (λ p. ground (arith, eq_iff key k, w.apart key k h)) (w.fits k))

  open_entry-cancelled :
      (key : String) (h : ℕ) (r : Registry A)
      → WellFormed r
      → Dict.lookup key r.cancels ≡ some h
      → Loose key (cancel h r)
  unfolding cancel
  open_entry-cancelled key h r w e = record {
    bounded = w.bounded;
    apart = w.apart;
    fits = λ k ne. rw (live-cancel_other key k h r w e ne) (w.fits k);
    idle = live-cancel_own key h r w e;
  }

  pub cancel_entry-Loose :
      (key : String) (r : Registry A)
      → WellFormed r
      → Loose key (cancel_entry (Dict.lookup key r.cancels) r)
  unfolding cancel_entry
  cancel_entry-Loose key r w = elim (Option-cases (Dict.lookup key r.cancels)) [
    | inl e ↦ rw e (record {
      bounded = w.bounded;
      apart = w.apart;
      fits = λ k ne. w.fits k;
      idle = no_handles (live key r.tasks) (w.fits key ∙ rw e refl);
    })
    | inr (h, e) ↦ rw e (open_entry-cancelled key h r w e)
  ]

  pub live-cancel_entry :
      (key k : String) (r : Registry A)
      → WellFormed r
      → (key == k) ≡ false
      → live k (cancel_entry (Dict.lookup key r.cancels) r).tasks ≡ live k r.tasks
  unfolding cancel_entry
  live-cancel_entry key k r w ne = elim (Option-cases (Dict.lookup key r.cancels)) [
    | inl e ↦ rw e refl
    | inr (h, e) ↦ rw e (live-cancel_other key k h r w e ne)
  ]

  pub start-WellFormed :
      (key : String) (payload : A) (r : Registry A) → Loose key r → WellFormed (start key payload r)
  unfolding start live
  start-WellFormed key payload r w = record {
    bounded = λ k h e. ground (arith, w.bounded k h, Dict.lookup-insert k key r.next r.cancels);
    apart = λ j k h e f. ground (
      arith,
      w.bounded j h,
      w.bounded k h,
      w.apart j k h,
      eq_iff key j,
      eq_iff key k,
      Dict.lookup-insert j key r.next r.cancels,
      Dict.lookup-insert k key r.next r.cancels,
    );
    fits = λ k. elim (eq_cases key k) [
      | inl e ↦
          rw (Dict.lookup-insert k key r.next r.cancels, (eq_iff key k).1 e)
            (ap (λ ts. r.next ∷ handles ts) (ap (λ x. live x r.tasks) (sym e) ∙ w.idle))
      | inr e ↦ rw (Dict.lookup-insert k key r.next r.cancels, e) (w.fits k e)
    ];
  }

  pub forget-WellFormed : (key : String) (r : Registry A) → Loose key r → WellFormed (forget key r)
  unfolding forget
  forget-WellFormed key r w = record {
    bounded = λ k h e. ground (arith, w.bounded k h, Dict.lookup-erase k key r.cancels);
    apart = λ j k h e f. ground (
      arith,
      w.apart j k h,
      Dict.lookup-erase j key r.cancels,
      Dict.lookup-erase k key r.cancels,
    );
    fits = λ k. elim (eq_cases key k) [
      | inl e ↦ rw (sym e, Dict.lookup-erase key key r.cancels, eq_refl, w.idle) refl
      | inr e ↦ rw (Dict.lookup-erase k key r.cancels, e) (w.fits k e)
    ];
  }

  abbrev pub payloads : List (Task A) → List A
  payloads ts = map (λ t. t.payload) ts

  -- A start on a free key adds its goroutine alone.
  pub live-start :
      (key k : String) (payload : A) (r : Registry A)
      → live key r.tasks ≡ []
      → payloads (live k (start key payload r).tasks)
        ≡ (if key == k then payload ∷ [] else payloads (live k r.tasks))
  unfolding start live
  live-start key k payload r h = elim (eq_cases key k) [
    | inl e ↦
        rw ((eq_iff key k).1 e)
          (ap (λ ts. payload ∷ payloads ts) (ap (λ x. live x r.tasks) (sym e) ∙ h))
    | inr e ↦ rw e refl
  ]

  pub empty-WellFormed : WellFormed empty_registry
  unfolding empty_registry live Dict.lookup
  empty-WellFormed = record {
    bounded = λ k h e. absurd cc;
    apart = λ j k h e f. absurd cc;
    fits = λ k. refl;
  }
