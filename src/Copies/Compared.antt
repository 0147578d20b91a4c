-- ===== src/Copies/Compared.antt =====
-- The comparison of a status with the copy made before: the copy stays what it was.
use smart_log.Base.{ℕ, ◌≡◌, ◌≢◌, refl, sym, ap, ◌∙◌, subst, Bool, true, false, none, some, List, []}
use smart_log.Api.{Condition}
use smart_log.Cluster.{Cluster}
use smart_log.Slices.{Heap, contents}
use smart_log.DeepCopy.{Copier}
use smart_log.DeepCopy.Held.{Cell}
use smart_log.Copies.{
  values, Conditions, conditions_in, Read-discrete, deep_equal, elements, Memory, compared,
}
use smart_log.Copies.Shown.{
  Shows, Separate, elements-map, shown-Shows, CopiesConditions, copied-Shows,
}

-- What is relied on: a decoded status stands for its value; the condition is set as in the value model,
-- which leaves some condition; and only the array of the given slice is written.
pub record MemoryLaws (C : Cluster) (M : Memory) : Type 0 where
  pub decoded-Shows : (xs : List Condition) → Shows (M.decoded xs).1 (M.decoded xs).0 xs
  pub set-Shows :
      (now : ℕ) (slice : Conditions) (c : Condition) (h : Heap (Cell values)) (xs : List Condition)
      → Shows h slice xs
      → Shows
          (M.set_in_place now slice c h).1
          (M.set_in_place now slice c h).0
          (C.set_status_condition now xs c)
  pub set-Separate :
      (now : ℕ) (slice other : Conditions) (c : Condition) (h : Heap (Cell values))
      (ys : List Condition)
      → Separate slice other
      → Shows h other ys
      → Shows (M.set_in_place now slice c h).1 other ys
  pub set-some :
      (now : ℕ) (xs : List Condition) (c : Condition) → C.set_status_condition now xs c ≢ []

deep_equal-true :
    (h : Heap (Cell values)) (a b : Conditions) (xs : List Condition)
    → Shows h a xs
    → Shows h b xs
    → xs ≢ []
    → deep_equal h a b ≡ true
unfolding deep_equal
deep_equal-true h none b xs e e' some_left = absurd (some_left e)
deep_equal-true h (some a) none xs e e' some_left = absurd (some_left e')
deep_equal-true h (some a) (some b) xs (live, e) (live', e') some_left =
    elim (Read-discrete (conditions_in (contents h a)) (conditions_in (contents h b)))
      as (λ d. elim d as (λ _. Bool) [ yes same ↦ true | no differ ↦ false ] ≡ true) [
        | yes same ↦ refl
        | no differ ↦ absurd (differ (ap conditions_in (e ∙ sym e')))
      ]

deep_equal-false :
    (h : Heap (Cell values)) (a b : Conditions) (xs ys : List Condition)
    → Shows h a xs
    → Shows h b ys
    → xs ≢ ys
    → deep_equal h a b ≡ false
unfolding deep_equal
deep_equal-false h none none xs ys e e' differ = absurd (differ (e ∙ sym e'))
deep_equal-false h none (some b) xs ys e e' differ = refl
deep_equal-false h (some a) none xs ys e e' differ = refl
deep_equal-false h (some a) (some b) xs ys (live, e) (live', e') differ =
    elim (Read-discrete (conditions_in (contents h a)) (conditions_in (contents h b)))
      as (λ d. elim d as (λ _. Bool) [ yes same ↦ true | no other ↦ false ] ≡ false) [
        | yes same ↦ absurd (
            differ (
              sym (elements-map xs)
              ∙ ap elements (ap conditions_in (sym e) ∙ same ∙ ap conditions_in e')
              ∙ elements-map ys))
        | no other ↦ refl
      ]

module _ (C : Cluster) (M : Memory) (laws : MemoryLaws C M)
    (copier : Copier (Cell values) Conditions) (copies : CopiesConditions copier) where
  original-Shows :
      (now : ℕ) (xs : List Condition) (c : Condition)
      → let read = M.decoded xs in
        let copy = copier read.0 read.1 in
        let set = M.set_in_place now read.0 c copy.1 in
        Shows set.1 copy.0 xs × Shows set.1 set.0 (C.set_status_condition now xs c)
  original-Shows now xs c =
      let read = M.decoded xs in
      let copy = copier read.0 read.1 in
      let (copied, kept, apart) =
        copied-Shows copier read.0 read.1 xs copies (laws.decoded-Shows xs) in
      (
        laws.set-Separate now read.0 copy.0 c copy.1 xs apart copied,
        laws.set-Shows now read.0 c copy.1 xs kept,
      )

  pub compared-same :
      (now : ℕ) (xs : List Condition) (c : Condition)
      → xs ≡ C.set_status_condition now xs c
      → (compared copier M now xs c).0 ≡ true
  unfolding compared
  compared-same now xs c one =
      let read = M.decoded xs in
      let copy = copier read.0 read.1 in
      let set = M.set_in_place now read.0 c copy.1 in
      let (original, updated) = original-Shows now xs c in
      deep_equal-true set.1 copy.0 set.0 xs original (subst (Shows set.1 set.0) (sym one) updated)
        (λ e. laws.set-some now xs c (sym one ∙ e))

  pub compared-differ :
      (now : ℕ) (xs : List Condition) (c : Condition)
      → xs ≢ C.set_status_condition now xs c
      → ((compared copier M now xs c).0 ≡ false)
        × ((compared copier M now xs c).1 ≡ C.set_status_condition now xs c)
  unfolding compared
  compared-differ now xs c differ =
      let read = M.decoded xs in
      let copy = copier read.0 read.1 in
      let set = M.set_in_place now read.0 c copy.1 in
      let (original, updated) = original-Shows now xs c in
      (
        deep_equal-false set.1 copy.0 set.0 xs _ original updated differ,
        shown-Shows set.1 set.0 _ updated,
      )
