-- ===== src/Slices.antt =====
-- The slices of Go: views of arrays in a heap, and `append`, which writes into the array while its
-- capacity lasts. `grow capacity needed` is the capacity of the array that the runtime allocates
-- otherwise.
pub mod Kept
use smart_log.Base.{
  ℕ, zero, suc, ◌+◌, ◌≤◌, ◌<◌, ◌≡◌, refl, ap, ◌∙◌, Bool, true, false, ◌&&◌, Option, none, some,
  List, [], ◌∷◌, ◌++◌, map, if◌then◌else◌, eqb, ltb, arith,
}

pub record Slice : Type 0 where
  pub array : ℕ
  pub len : ℕ
  pub cap : ℕ

-- The arrays' cells, and the number of the next array.
pub record Heap (A : Type 0) : Type 0 where
  pub cells : ℕ → ℕ → Option A
  pub next : ℕ

unfoldable pub nil_slice : Slice
nil_slice = record { array = 0; len = 0; cap = 0 }

module _ {A : Type 0} where
  unfoldable pub empty_heap : Heap A
  empty_heap = record { cells = λ a i. none; next = 0 }

  unfoldable pub write : ℕ → ℕ → A → Heap A → Heap A
  write array i x h = record h {
    cells = λ a j. if eqb a array && eqb j i then some x else h.cells a j;
  }

  -- A new array with the first cells of another one.
  unfoldable pub allocate : Slice → Heap A → Heap A
  allocate slice h = record {
    cells = λ a j.
        if eqb a h.next
        then (if ltb j slice.len then h.cells slice.array j else none)
        else h.cells a j;
    next = suc h.next;
  }

  unfoldable pub append : (ℕ → ℕ → ℕ) → Slice → A → Heap A → Slice × Heap A
  unfolding write allocate
  append grow slice x h =
      if ltb slice.len slice.cap
      then (record slice { len = suc slice.len }, write slice.array slice.len x h)
      else (
        record { array = h.next; len = suc slice.len; cap = grow slice.cap (suc slice.len) },
        write h.next slice.len x (allocate slice h),
      )

  -- The cells of an array from the start, as many as are asked for.
  unfoldable pub first_cells : ℕ → (ℕ → Option A) → List (Option A)
  first_cells zero cells = []
  first_cells (suc n) cells = cells 0 ∷ first_cells n (λ i. cells (suc i))

  -- What a slice shows.
  unfoldable pub contents : Heap A → Slice → List (Option A)
  unfolding first_cells
  contents h slice = first_cells slice.len (h.cells slice.array)
