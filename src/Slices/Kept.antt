-- ===== src/Slices/Kept.antt =====
-- What `append` makes of the contents of slices.
use smart_log.Base.{
  ℕ, zero, suc, ◌≤◌, ◌<◌, ◌≡◌, refl, ap, ◌∙◌, ◌⊎◌, inl, inr, Bool-cases, Option, some, [], ◌∷◌,
  ◌++◌, ltb, arith,
}
use smart_log.Slices.{Slice, Heap, write, allocate, append, first_cells, contents}

module _ {A : Type 0} where
  pub first_cells-ext :
      (n : ℕ) (cells cells' : ℕ → Option A)
      → ((i : ℕ) → i < n → cells i ≡ cells' i)
      → first_cells n cells ≡ first_cells n cells'
  unfolding first_cells
  first_cells-ext zero cells cells' same = refl
  first_cells-ext (suc n) cells cells' same =
      ap (λ x. x ∷ first_cells n (λ i. cells (suc i))) (same 0 (omega arith))
      ∙ ap (λ l. cells' 0 ∷ l)
          (first_cells-ext n (λ i. cells (suc i)) (λ i. cells' (suc i))
            (λ i o. same (suc i) (omega arith)))

  first_cells-suc :
      (n : ℕ) (cells : ℕ → Option A)
      → first_cells (suc n) cells ≡ first_cells n cells ++ cells n ∷ []
  unfolding first_cells
  first_cells-suc zero cells = refl
  first_cells-suc (suc n) cells = ap (λ l. cells 0 ∷ l) (first_cells-suc n (λ i. cells (suc i)))

  first_cells-write :
      (n : ℕ) (x : A) (cells cells' : ℕ → Option A)
      → ((i : ℕ) → i < n → cells' i ≡ cells i)
      → cells' n ≡ some x
      → first_cells (suc n) cells' ≡ first_cells n cells ++ some x ∷ []
  first_cells-write n x cells cells' same new =
      first_cells-suc n cells'
      ∙ ap (λ l. l ++ cells' n ∷ []) (first_cells-ext n cells' cells same)
      ∙ ap (λ y. first_cells n cells ++ y ∷ []) new

  -- The slice has an array that the heap knows, if it has one.
  abbrev pub Live : Heap A → Slice → Type 0
  Live h slice = ((slice.len ≡ 0) × (slice.cap ≡ 0)) ⊎ (slice.array < h.next)

  module _ (grow : ℕ → ℕ → ℕ) (x : A) (h : Heap A) where
    -- The new slice shows the old one's elements and the new one.
    pub contents-append :
        (slice : Slice)
        → contents (append grow slice x h).1 (append grow slice x h).0
          ≡ contents h slice ++ some x ∷ []
    unfolding contents append write allocate
    contents-append slice = elim (Bool-cases (ltb slice.len slice.cap)) [
      | inl e ↦ rw e (
          first_cells-write slice.len x (h.cells slice.array)
            ((write slice.array slice.len x h).cells slice.array) (λ i o. ground arith)
            (ground arith))
      | inr e ↦ rw e (
          first_cells-write slice.len x (h.cells slice.array)
            ((write h.next slice.len x (allocate slice h)).cells h.next) (λ i o. ground arith)
            (ground arith))
    ]

    pub append-Live :
        (slice : Slice) → Live h slice → Live (append grow slice x h).1 (append grow slice x h).0
    unfolding append write allocate
    append-Live slice live = elim (Bool-cases (ltb slice.len slice.cap)) [
      | inl e ↦ rw e (ground arith)
      | inr e ↦ rw e (ground arith)
    ]

    -- When the capacity is used up, no other slice sees the element.
    pub append_full :
        (slice other : Slice)
        → slice.cap ≤ slice.len
        → Live h other
        → (contents (append grow slice x h).1 other ≡ contents h other)
          × Live (append grow slice x h).1 other
    unfolding contents append write allocate
    append_full slice other full live = elim (Bool-cases (ltb slice.len slice.cap)) [
      | inl e ↦ absurd (ground arith)
      | inr e ↦ rw e (first_cells-ext other.len _ _ (λ i o. ground arith), ground arith)
    ]
