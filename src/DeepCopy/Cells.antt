-- ===== src/DeepCopy/Cells.antt =====
-- The copies of the cells of an array.
use smart_log.Base.{
  ℕ, zero, suc, ◌+◌, ◌≤◌, ◌<◌, ◌≡◌, ◌≢◌, refl, sym, ap, ◌∙◌, ◌⊎◌, inl, inr, subst, some, arith,
}
use mathlib.Core.Option.{some-injective}
use smart_log.Slices.{Heap, write}
use smart_log.DeepCopy.{Storage, Copier, reserve, read, copy_cell, copy_cells}
use smart_log.DeepCopy.Alike.{
  View, Moves, Shape, Fresh, Copied, DeepCopies, CellAlike, CellAlike-moves,
}

module _ {Cell : Type 0} where
  module _ {A : Type 0} (K : Storage Cell A) (S : Shape Cell A) (copy : Copier Cell A)
      (copies : DeepCopies Cell S copy) where
    -- The view of the originals, and that of what lies behind the array `to` up to the heap's end.
    abbrev originals : (ℕ → Type 0) → Heap Cell → View Cell
    originals P m = record { owns = P; heap = m }

    abbrev behind : ℕ → Heap Cell → View Cell
    behind to m = record { owns = λ k. (to < k) × (k < m.next); heap = m }

    itself :
        (v w : View Cell) (p i : ℕ)
        → CellAlike Cell K S v p w p i
        → (v.heap.cells p i ≡ w.heap.cells p i)
        → (x : A) × (v.heap.cells p i ≡ some (K.inject x)) × S.Alike v x w x
    itself v w p i (x, y, at_v, at_w, alike) same =
        let one : x ≡ y = some-injective x y (
          sym (K.project-inject x)
          ∙ ap K.project (some-injective (K.inject x) (K.inject y) (sym at_v ∙ same ∙ at_w))
          ∙ K.project-inject y) in
        (x, at_v, subst (λ z. S.Alike v x w z) (sym one) alike)

    -- What the copy of one cell, or of a run of cells, into the array `to` has done.
    pub record CellsCopied (P : ℕ → Type 0) (m : Heap Cell) (from to first last : ℕ) (n : Heap Cell)
        : Type 0 where
      pub grown : m.next ≤ n.next
      pub kept : (k i : ℕ) → k < m.next → (k ≢ to) ⊎ (i < first) → n.cells k i ≡ m.cells k i
      pub alike :
          (i : ℕ)
          → first ≤ i
          → i < last
          → CellAlike Cell K S (originals P n) from (behind to n) to i

    copy_cell-written :
        (m : Heap Cell) (from to i : ℕ) (x : A)
        → m.cells from i ≡ some (K.inject x)
        → copy_cell K copy from to i m ≡ write to i (K.inject (copy x m).0) (copy x m).1
    unfolding copy_cell read
    copy_cell-written m from to i x at_from = rw (copy_cell, read, at_from, K.project-inject x) refl

    written-Copied :
        (P : ℕ → Type 0) (m : Heap Cell) (from to i : ℕ) (x y : A) (n : Heap Cell)
        → ((k : ℕ) → P k → k < to)
        → to < m.next
        → P from
        → m.cells from i ≡ some (K.inject x)
        → Copied Cell S P m x y n
        → CellsCopied P m from to i (suc i) (write to i (K.inject y) n)
    unfolding write
    written-Copied P m from to i x y n below room own at_from done =
        let moved : S.Alike (originals P n) x (record { owns = Fresh Cell m n; heap = n }) y =
          done.alike in
        let n' = write to i (K.inject y) n in
        record {
          grown = done.grown;
          kept = λ k j o apart. ground (arith, apart, done.kept k j o);
          alike = λ j o o'. (
            x,
            y,
            ground (arith, below from own, at_from, done.kept from i, room, o, o'),
            ground (arith, o, o'),
            S.moves (originals P n) (originals P n') (record { owns = Fresh Cell m n; heap = n })
                (behind to n') x y (λ k o''. (o'', λ l. ground (arith, below k o'')))
                (λ k o''. (omega (arith, o'', room), λ l. ground (arith, o'', room))) moved,
          );
        }

    pub copy_cell-Copied :
        (P : ℕ → Type 0) (m : Heap Cell) (from to i : ℕ)
        → ((k : ℕ) → P k → k < to)
        → to < m.next
        → P from
        → CellAlike Cell K S (originals P m) from (originals P m) from i
        → CellsCopied P m from to i (suc i) (copy_cell K copy from to i m)
    copy_cell-Copied P m from to i below room own h =
        let (x, at_from, alike) = itself (originals P m) (originals P m) from i h refl in
        let done = copies P m x (λ k o. omega (arith, below k o, room)) alike in
        subst (CellsCopied P m from to i (suc i)) (sym (copy_cell-written m from to i x at_from))
          (written-Copied P m from to i x _ _ below room own at_from done)

    add_cells :
        (P : ℕ → Type 0) (from to i n : ℕ) (m m₁ m₂ : Heap Cell)
        → ((k : ℕ) → P k → k < to)
        → to < m.next
        → P from
        → CellsCopied P m from to i (suc i) m₁
        → CellsCopied P m₁ from to (suc i) (suc i + n) m₂
        → CellsCopied P m from to i (i + suc n) m₂
    add_cells P from to i n m m₁ m₂ below room own first rest = record {
      grown = omega (arith, first.grown, rest.grown);
      kept = λ k j o apart.
          rest.kept k j (omega (arith, first.grown, o))
            (elim apart [ inl differ ↦ inl differ | inr less ↦ inr (omega (arith, less)) ])
          ∙ first.kept k j o apart;
      alike = λ j o o'. elim (cases j) [
        | inl e ↦
            CellAlike-moves Cell K S (originals P m₁) (originals P m₂) (behind to m₁) (behind to m₂)
              from to j (λ k o''. (o'', λ l. rest.kept k l (old k o'') (inl (other k o''))))
              (λ k o''. (
                (o''.0, omega (arith, o''.1, rest.grown)),
                λ l. rest.kept k l o''.1 (inl (λ e. omega (arith, o''.0, e))),
              ))
              (rest.kept from j (old from own) (inl (other from own)))
              (rest.kept to j (omega (arith, first.grown, room)) (inr (omega (arith, e))))
              (first.alike j o (omega (arith, e)))
        | inr later ↦ rest.alike j later (omega (arith, o'))
      ];
    }
      where
        cases : (j : ℕ) → (j < suc i) ⊎ (suc i ≤ j)
        cases j = ground arith

        old : (k : ℕ) → P k → k < m₁.next
        old k o = omega (arith, below k o, first.grown, room)

        other : (k : ℕ) → P k → k ≢ to
        other k o e = omega (arith, below k o, e)

    pub copy_cells-Copied :
        (P : ℕ → Type 0) (from to n i : ℕ) (m : Heap Cell)
        → ((k : ℕ) → P k → k < to)
        → to < m.next
        → P from
        → ((j : ℕ)
            → i ≤ j
            → j < i + n
            → CellAlike Cell K S (originals P m) from (originals P m) from j)
        → CellsCopied P m from to i (i + n) (copy_cells K copy from to n i m)
    unfolding copy_cells
    copy_cells-Copied P from to zero i m below room own h = record {
      grown = omega arith;
      kept = λ k j o apart. refl;
      alike = λ j o o'. absurd (omega (arith, o, o'));
    }
    copy_cells-Copied P from to (suc n) i m below room own h =
        let first =
          copy_cell-Copied P m from to i below room own (h i (omega arith) (omega arith)) in
        let m₁ = copy_cell K copy from to i m in
        add_cells P from to i n m m₁ (copy_cells K copy from to n (suc i) m₁) below room own first (
          copy_cells-Copied P from to n (suc i) m₁ below (omega (arith, first.grown, room)) own
            (λ j o o'.
              CellAlike-moves Cell K S (originals P m) (originals P m₁) (originals P m)
                (originals P m₁) from from j (still m₁ first) (still m₁ first)
                ((still m₁ first from own).1 j) ((still m₁ first from own).1 j)
                (h j (omega (arith, o)) (omega (arith, o')))))
      where
        still :
            (m₁ : Heap Cell)
            → CellsCopied P m from to i (suc i) m₁
            → Moves Cell (originals P m) (originals P m₁)
        still m₁ first k o = (
          o,
          λ l.
              first.kept k l (omega (arith, below k o, room))
                (inl (λ e. omega (arith, below k o, e))),
        )

    pub reserved :
        (P : ℕ → Type 0) (m : Heap Cell) (p i : ℕ)
        → CellAlike Cell K S (originals P m) p (originals P m) p i
        → CellAlike Cell K S (originals P (reserve m)) p (originals P (reserve m)) p i
    unfolding reserve
    reserved P m p i =
        CellAlike-moves Cell K S (originals P m) (originals P (reserve m)) (originals P m)
          (originals P (reserve m)) p p i (λ k o. (o, λ l. refl)) (λ k o. (o, λ l. refl)) refl refl

    pub widened :
        (P : ℕ → Type 0) (m n : Heap Cell) (p i : ℕ)
        → CellAlike Cell K S (originals P n) p (behind m.next n) m.next i
        → CellAlike Cell K S (originals P n) p (record { owns = Fresh Cell m n; heap = n }) m.next i
    widened P m n p i =
        CellAlike-moves Cell K S (originals P n) (originals P n) (behind m.next n)
          (record { owns = Fresh Cell m n; heap = n }) p m.next i (λ k o. (o, λ l. refl))
          (λ k o. ((omega (arith, o.0), o.1), λ l. refl)) refl refl
