-- ===== src/DeepCopy/Alike.antt =====
-- When two values read the same, each in its heap, and what a copy is.
use smart_log.Base.{ℕ, ◌≤◌, ◌<◌, ◌≡◌, ◌∙◌, Option, none, some}
use smart_log.Slices.{Slice, Heap}
use smart_log.DeepCopy.{Storage, Copier}

module _ (Cell : Type 0) where
  -- A heap, with the arrays that a value may reach.
  pub record View : Type 1 where
    pub owns : ℕ → Type 0
    pub heap : Heap Cell

  -- The arrays of the one view are arrays of the other, with the same cells.
  abbrev pub Moves : View → View → Type 0
  Moves v w = (k : ℕ) → v.owns k → w.owns k × ((i : ℕ) → w.heap.cells k i ≡ v.heap.cells k i)

  -- What it is for two values of a type to read the same: it depends on the arrays of the views alone.
  pub record Shape (A : Type 0) : Type 1 where
    pub Alike : View → A → View → A → Type 0
    pub moves :
        (v v' w w' : View) (a b : A) → Moves v v' → Moves w w' → Alike v a w b → Alike v' a w' b

  abbrev pub Fresh : Heap Cell → Heap Cell → ℕ → Type 0
  Fresh m n k = (m.next ≤ k) × (k < n.next)

  -- The heap has grown, no array that was there has changed, and the copy reaches only new arrays and
  -- reads as the original.
  pub record Copied {A : Type 0} (S : Shape A) (P : ℕ → Type 0) (m : Heap Cell) (a b : A)
      (n : Heap Cell) : Type 0 where
    pub grown : m.next ≤ n.next
    pub kept : (k i : ℕ) → k < m.next → n.cells k i ≡ m.cells k i
    pub alike : S.Alike (record { owns = P; heap = n }) a (record { owns = Fresh m n; heap = n }) b

  -- The copy of any value that can be read, all its arrays being in the heap.
  abbrev pub DeepCopies : {A : Type 0} → Shape A → Copier Cell A → Type 1
  DeepCopies {A} S copy =
      (P : ℕ → Type 0) (m : Heap Cell) (a : A)
      → ((k : ℕ) → P k → k < m.next)
      → S.Alike (record { owns = P; heap = m }) a (record { owns = P; heap = m }) a
      → Copied S P m a (copy a m).0 (copy a m).1

  -- Values without pointers.
  abbrev pub plain : {A : Type 0} → Shape A
  plain {A} = record { Alike = λ v a w b. a ≡ b; moves = λ v v' w w' a b f g e. e }

  module _ {A : Type 0} (K : Storage Cell A) (S : Shape A) where
    abbrev pub CellAlike : View → ℕ → View → ℕ → ℕ → Type 0
    CellAlike v p w q i =
        (x : A) × (y : A) × (v.heap.cells p i ≡ some (K.inject x))
        × (w.heap.cells q i ≡ some (K.inject y))
        × S.Alike v x w y

    abbrev pub PointerAlike : View → Option ℕ → View → Option ℕ → Type 0
    PointerAlike v none w none = Unit
    PointerAlike v none w (some q) = ⊥
    PointerAlike v (some p) w none = ⊥
    PointerAlike v (some p) w (some q) = v.owns p × w.owns q × CellAlike v p w q 0

    abbrev pub SliceAlike : View → Option Slice → View → Option Slice → Type 0
    SliceAlike v none w none = Unit
    SliceAlike v none w (some t) = ⊥
    SliceAlike v (some s) w none = ⊥
    SliceAlike v (some s) w (some t) =
        (s.len ≡ t.len)
        × v.owns s.array
        × w.owns t.array
        × ((i : ℕ) → i < s.len → CellAlike v s.array w t.array i)

    pub CellAlike-moves :
        (v v' w w' : View) (p q i : ℕ)
        → Moves v v'
        → Moves w w'
        → v'.heap.cells p i ≡ v.heap.cells p i
        → w'.heap.cells q i ≡ w.heap.cells q i
        → CellAlike v p w q i
        → CellAlike v' p w' q i
    CellAlike-moves v v' w w' p q i f g one two (x, y, at_p, at_q, alike) =
        (x, y, one ∙ at_p, two ∙ at_q, S.moves v v' w w' x y f g alike)

    pub PointerAlike-moves :
        (v v' w w' : View) (a b : Option ℕ)
        → Moves v v'
        → Moves w w'
        → PointerAlike v a w b
        → PointerAlike v' a w' b
    PointerAlike-moves v v' w w' none none f g h = h
    PointerAlike-moves v v' w w' none (some q) f g h = h
    PointerAlike-moves v v' w w' (some p) none f g h = h
    PointerAlike-moves v v' w w' (some p) (some q) f g (own, own', h) = (
      (f p own).0,
      (g q own').0,
      CellAlike-moves v v' w w' p q 0 f g ((f p own).1 0) ((g q own').1 0) h,
    )

    pub SliceAlike-moves :
        (v v' w w' : View) (a b : Option Slice)
        → Moves v v'
        → Moves w w'
        → SliceAlike v a w b
        → SliceAlike v' a w' b
    SliceAlike-moves v v' w w' none none f g h = h
    SliceAlike-moves v v' w w' none (some t) f g h = h
    SliceAlike-moves v v' w w' (some s) none f g h = h
    SliceAlike-moves v v' w w' (some s) (some t) f g (same, own, own', h) = (
      same,
      (f s.array own).0,
      (g t.array own').0,
      λ i o.
          CellAlike-moves v v' w w' s.array t.array i f g ((f s.array own).1 i)
            ((g t.array own').1 i) (h i o),
    )

    abbrev pub pointer : Shape (Option ℕ)
    pointer = record { Alike = PointerAlike; moves = PointerAlike-moves }

    abbrev pub slice : Shape (Option Slice)
    slice = record { Alike = SliceAlike; moves = SliceAlike-moves }

  -- The fields of a struct.
  module _ {A B : Type 0} (S : Shape A) (T : Shape B) where
    abbrev pub both : Shape (A × B)
    both = record {
      Alike = λ v a w b. S.Alike v a.0 w b.0 × T.Alike v a.1 w b.1;
      moves = λ v v' w w' a b f g h.
          (S.moves v v' w w' a.0 b.0 f g h.0, T.moves v v' w w' a.1 b.1 f g h.1);
    }

  -- A struct, by its fields.
  abbrev pub fields : {A B : Type 0} → (A → B) → Shape B → Shape A
  fields get S = record {
    Alike = λ v a w b. S.Alike v (get a) w (get b);
    moves = λ v v' w w' a b f g h. S.moves v v' w w' (get a) (get b) f g h;
  }
