-- ===== src/DeepCopy.antt =====
-- api/v1alpha1/zz_generated.deepcopy.go: how its functions copy pointers and slices. All that is
-- pointed to lies in one heap of arrays of cells; the pointer to a struct is the number of an array
-- with one cell.
pub mod Alike
pub mod Cells
pub mod Pointers
pub mod Copying
pub mod Structs
pub mod Held
pub mod Specs
pub mod Objects
pub mod Pointed
pub mod RuntimeObjects
pub mod SpecsCopied
pub mod ObjectsCopied
pub mod Faithful
pub mod Apart
use smart_log.Base.{ℕ, zero, suc, ◌≡◌, Option, none, some}
use smart_log.Slices.{Slice, Heap, write}

-- How the values of a type are stored in cells.
pub record Storage (Cell A : Type 0) : Type 0 where
  pub inject : A → Cell
  pub project : Cell → Option A
  pub project-inject : (x : A) → project (inject x) ≡ some x

-- The function gives what it writes to `out`.
abbrev pub Copier : Type 0 → Type 0 → Type 0
Copier Cell A = A → Heap Cell → A × Heap Cell

module _ {Cell : Type 0} where
  -- `*out = *in` alone.
  abbrev pub assign : {A : Type 0} → Copier Cell A
  assign x h = (x, h)

  -- `new` and `make`: the number of a new array.
  unfoldable pub reserve : Heap Cell → Heap Cell
  reserve h = record h { next = suc h.next }

  unfoldable pub read : {A : Type 0} → Storage Cell A → ℕ → ℕ → Heap Cell → Option A
  read K array i h = elim (h.cells array i) [ none ↦ none | some c ↦ K.project c ]

  module _ {A : Type 0} (K : Storage Cell A) (copy : Copier Cell A) where
    -- `(*in)[i].DeepCopyInto(&(*out)[i])`, from one array to another.
    unfoldable pub copy_cell : ℕ → ℕ → ℕ → Heap Cell → Heap Cell
    unfolding read
    copy_cell from to i h = elim (read K from i h) [
      | none ↦ h
      | some x ↦ let (y, h₁) = copy x h in write to i (K.inject y) h₁
    ]

    -- The loop over the indices, from `i` on.
    unfoldable pub copy_cells : ℕ → ℕ → ℕ → ℕ → Heap Cell → Heap Cell
    unfolding copy_cell
    copy_cells from to zero i h = h
    copy_cells from to (suc n) i h = copy_cells from to n (suc i) (copy_cell from to i h)

    -- `if *in != nil { *out = new(T); (**in).DeepCopyInto(*out) }`
    unfoldable pub copy_pointer : Copier Cell (Option ℕ)
    unfolding copy_cell reserve
    copy_pointer none h = (none, h)
    copy_pointer (some p) h = (some h.next, copy_cell p h.next 0 (reserve h))

    -- `if *in != nil { *out = make([]T, len(*in)); for i := range *in { ... } }`
    unfoldable pub copy_slice : Copier Cell (Option Slice)
    unfolding copy_cells reserve
    copy_slice none h = (none, h)
    copy_slice (some s) h = (
      some (record { array = h.next; len = s.len; cap = s.len }),
      copy_cells s.array h.next s.len 0 (reserve h),
    )
