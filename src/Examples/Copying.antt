-- ===== src/Examples/Copying.antt =====
-- A heap for the conditions of an alert or a provider, in which a condition that is there already is set in place.
use smart_log.Base.{
  ℕ, zero, suc, ◌≡◌, ◌≢◌, refl, subst, ap, ◌∙◌, Bool-cases, Option, none, some, List, [], ◌∷◌, map,
  length, arith, if◌then◌else◌, eqb, inl, inr,
}
use smart_log.Api.{Condition}
use smart_log.Slices.{Slice, Heap, empty_heap, first_cells, contents}
use smart_log.Slices.Kept.{first_cells-ext}
use smart_log.DeepCopy.Held.{Cell}
use smart_log.Copies.{values, stored, Memory, shown, attempt}
use smart_log.Copies.Shown.{Shows, Separate, shown-Shows}
use smart_log.Copies.Compared.{MemoryLaws}
use smart_log.Copies.Providers
use smart_log.Copies.Attempts.{attempts_faithful}
use smart_log.AiProviders
use smart_log.Alerts
use smart_log.Examples.Memory.{Server, memory}
use smart_log.Examples.Reconciles.{named, server, gemini}

abbrev nth : List Condition → ℕ → Option (Cell values)
nth [] i = none
nth (y ∷ ys) zero = stored y
nth (y ∷ ys) (suc i) = nth ys i

-- The list into an array.
abbrev written : ℕ → List Condition → Heap (Cell values) → Heap (Cell values)
written array ys h = record h { cells = λ a i. if eqb a array then nth ys i else h.cells a i }

abbrev written_new : List Condition → Heap (Cell values) → Option Slice × Heap (Cell values)
written_new ys h = (
  some (record { array = h.next; len = length ys; cap = length ys }),
  written h.next ys (record h { next = suc h.next }),
)

-- In place when the length stays.
abbrev written_in :
    Option Slice → List Condition → Heap (Cell values) → Option Slice × Heap (Cell values)
written_in none ys h = written_new ys h
written_in (some slice) ys h =
    if eqb slice.len (length ys) then (some slice, written slice.array ys h) else written_new ys h

abbrev heap : Memory
heap = record {
  decoded = λ xs. written_new xs empty_heap;
  set_in_place =
      λ now slice c h. written_in slice (memory.set_status_condition now (shown h slice) c) h;
}

first_cells-nth : (ys : List Condition) → first_cells (length ys) (λ i. nth ys i) ≡ map stored ys
unfolding first_cells
first_cells-nth [] = refl
first_cells-nth (y ∷ ys) = ap (λ l. stored y ∷ l) (first_cells-nth ys)

written_new-Shows :
    (ys : List Condition) (h : Heap (Cell values))
    → Shows (written_new ys h).1 (written_new ys h).0 ys
unfolding contents
written_new-Shows ys h = (
  omega arith,
  first_cells-ext (length ys) _ (λ i. nth ys i) (λ i o. ground arith) ∙ first_cells-nth ys,
)

written_in-Shows :
    (slice : Option Slice) (xs ys : List Condition) (h : Heap (Cell values))
    → Shows h slice xs
    → Shows (written_in slice ys h).1 (written_in slice ys h).0 ys
unfolding contents
written_in-Shows none xs ys h e = written_new-Shows ys h
written_in-Shows (some slice) xs ys h (live, e) = elim (Bool-cases (eqb slice.len (length ys))) [
  | inl same ↦ rw same (
    live,
    ap (λ n. first_cells n (λ i. (written slice.array ys h).cells slice.array i)) (ground arith)
        ∙ first_cells-ext (length ys) _ (λ i. nth ys i) (λ i o. ground arith)
        ∙ first_cells-nth ys,
  )
  | inr other ↦ rw other (written_new-Shows ys h)
]

written_new-kept :
    (other : Option Slice) (xs ys : List Condition) (h : Heap (Cell values))
    → Shows h other xs
    → Shows (written_new ys h).1 other xs
unfolding contents
written_new-kept none xs ys h e = e
written_new-kept (some other) xs ys h (live, e) = (
  omega (arith, live),
  first_cells-ext other.len _ (h.cells other.array) (λ i o. ground arith) ∙ e,
)

written_in-kept :
    (slice other : Option Slice) (xs ys : List Condition) (h : Heap (Cell values))
    → Separate slice other
    → Shows h other xs
    → Shows (written_in slice ys h).1 other xs
unfolding contents
written_in-kept none other xs ys h apart e = written_new-kept other xs ys h e
written_in-kept (some slice) none xs ys h apart e = e
written_in-kept (some slice) (some other) xs ys h apart (live, e) =
    elim (Bool-cases (eqb slice.len (length ys))) [
      | inl same ↦ rw same (
        live,
        first_cells-ext other.len _ (h.cells other.array) (λ i o. ground (arith, apart)) ∙ e,
      )
      | inr new ↦ rw new (written_new-kept (some other) xs ys h (live, e))
    ]

set_condition-some :
    (now : ℕ) (xs : List Condition) (c : Condition) → memory.set_status_condition now xs c ≢ []
set_condition-some now [] c e = absurd (ground (arith, ap length e))
set_condition-some now (x ∷ xs) c e = absurd (ground (arith, ap length e))

heap-MemoryLaws : MemoryLaws memory heap
heap-MemoryLaws = record {
  decoded-Shows = λ xs. written_new-Shows xs empty_heap;
  set-Shows = λ now slice c h xs shows.
      let ys = memory.set_status_condition now (shown h slice) c in
      subst (Shows (written_in slice ys h).1 (written_in slice ys h).0)
        (ap (λ l. memory.set_status_condition now l c) (shown-Shows h slice xs shows))
        (written_in-Shows slice xs ys h shows);
  set-Separate =
      λ now slice other c h ys apart shows. written_in-kept slice other ys _ h apart shows;
  set-some = set_condition-some;
}

-- An alert and a provider of the same name.
abbrev both : Server
both = record server { providers = record gemini { name = "ops" } ∷ [] }

attempts_faithful_example :
    (attempt memory heap (named "ops") both ≡ Alerts.attempt memory (named "ops") both)
    × (Providers.attempt memory heap (named "ops") both
        ≡ AiProviders.attempt memory (named "ops") both)
attempts_faithful_example = attempts_faithful memory heap heap-MemoryLaws (named "ops") both
