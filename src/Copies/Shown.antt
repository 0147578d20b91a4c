-- ===== src/Copies/Shown.antt =====
-- A slice of conditions and the list that it stands for, before and after a deep copy.
use smart_log.Base.{
  ℕ, zero, suc, ◌<◌, ◌≡◌, ◌≢◌, refl, sym, ap, ◌∙◌, Option, none, some, List, [], ◌∷◌, map, arith,
}
use smart_log.Api.{Condition}
use smart_log.Slices.{Heap, first_cells, contents}
use smart_log.DeepCopy.{Copier}
use smart_log.DeepCopy.Alike
use smart_log.DeepCopy.Alike.{Shape, Copied, DeepCopies}
use smart_log.DeepCopy.Held.{Cell, kind, condition_type}
use smart_log.Slices.Kept.{first_cells-ext}
use smart_log.Copies.{values, Conditions, stored, conditions_in, elements, shown}

-- The slice, or its being nil, stands for the list.
abbrev pub Shows : Heap (Cell values) → Conditions → List Condition → Type 0
Shows h none xs = xs ≡ []
Shows h (some slice) xs = (slice.array < h.next) × (contents h slice ≡ map stored xs)

-- Two slices have no array in common.
abbrev pub Separate : Conditions → Conditions → Type 0
Separate none b = Unit
Separate (some a) none = Unit
Separate (some a) (some b) = a.array ≢ b.array

pub elements-map : (xs : List Condition) → elements (conditions_in (map stored xs)) ≡ xs
unfolding elements conditions_in kind
elements-map [] = refl
elements-map (x ∷ xs) =
    rw ((kind values condition_type).project-inject x) (ap (λ l. x ∷ l) (elements-map xs))

pub shown-Shows :
    (h : Heap (Cell values)) (slice : Conditions) (xs : List Condition)
    → Shows h slice xs
    → shown h slice ≡ xs
unfolding shown
shown-Shows h none xs e = sym e
shown-Shows h (some slice) xs (live, e) =
    ap (λ cells. elements (conditions_in cells)) e ∙ elements-map xs

abbrev pub slices : Shape (Cell values) Conditions
slices = Alike.slice (Cell values) (kind values condition_type) (Alike.plain (Cell values))

-- What is relied on of a copier.
abbrev pub CopiesConditions : Copier (Cell values) Conditions → Type 1
CopiesConditions = DeepCopies (Cell values) slices

cell-stored :
    (n : ℕ) (cells : ℕ → Option (Cell values)) (xs : List Condition)
    → first_cells n cells ≡ map stored xs
    → (i : ℕ) → i < n
    → (x : Condition) × (cells i ≡ stored x)
unfolding first_cells
cell-stored zero cells xs e i o = absurd (omega (arith, o))
cell-stored (suc n) cells [] e i o = absurd (ground (arith, e))
cell-stored (suc n) cells (x ∷ xs) e zero o = (x, ground (arith, e))
cell-stored (suc n) cells (x ∷ xs) e (suc i) o =
    cell-stored n (λ j. cells (suc j)) xs (ground (arith, e)) i (omega (arith, o))

alike-Shows :
    (h n : Heap (Cell values)) (xs : List Condition) (a b : Conditions)
    → Shows h a xs
    → Copied (Cell values) slices (λ k. k < h.next) h a b n
    → Shows n b xs × Shows n a xs × Separate a b
unfolding contents kind
alike-Shows h n xs none none e done = (e, e, tt)
alike-Shows h n xs none (some t) e done = absurd done.alike
alike-Shows h n xs (some s) none e done = absurd done.alike
alike-Shows h n xs (some s) (some t) (live, e) done =
    let (same, own, new, alike) = done.alike in
    let kept : first_cells s.len (n.cells s.array) ≡ map stored xs =
      first_cells-ext s.len (n.cells s.array) (h.cells s.array) (λ i o. done.kept s.array i live)
      ∙ e in
    (
      (
        new.1,
        ap (λ len. first_cells len (n.cells t.array)) (sym same)
            ∙ first_cells-ext s.len (n.cells t.array) (n.cells s.array)
                (λ i o. let (x, y, at, at', e') = alike i o in at' ∙ ap stored (sym e') ∙ sym at)
            ∙ kept,
      ),
      (omega (arith, live, done.grown), kept),
      λ e'. omega (arith, live, new.0, e'),
    )

slices-Alike :
    (h : Heap (Cell values)) (a : Conditions) (xs : List Condition)
    → Shows h a xs
    → slices.Alike
        (record { owns = λ k. k < h.next; heap = h })
        a
        (record { owns = λ k. k < h.next; heap = h })
        a
unfolding contents kind
slices-Alike h none xs e = tt
slices-Alike h (some s) xs (live, e) = (
  refl,
  live,
  live,
  λ i o. let (x, at) = cell-stored s.len (h.cells s.array) xs e i o in (x, x, at, at, refl),
)

pub copied-Shows :
    (copy : Copier (Cell values) Conditions) (slice : Conditions) (h : Heap (Cell values))
    (xs : List Condition)
    → CopiesConditions copy
    → Shows h slice xs
    → Shows (copy slice h).1 (copy slice h).0 xs
      × Shows (copy slice h).1 slice xs
      × Separate slice (copy slice h).0
copied-Shows copy slice h xs copies e =
    alike-Shows h (copy slice h).1 xs slice (copy slice h).0 e
      (copies (λ k. k < h.next) h slice (λ k o. o) (slices-Alike h slice xs e))
