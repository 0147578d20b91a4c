-- ===== src/DeepCopy/Pointers.antt =====
-- Pointers, slices and fields of what is deeply copied are deeply copied.
use smart_log.Base.{ℕ, ◌≡◌, refl, sym, ◌∙◌, inl, subst, none, some, arith}
use smart_log.Slices.{Heap}
use smart_log.DeepCopy.{Storage, Copier, assign, reserve, copy_pointer, copy_slice}
use smart_log.DeepCopy.Alike.{
  View, Moves, Shape, Fresh, Copied, DeepCopies, plain, pointer, slice, both, fields,
}
use smart_log.DeepCopy.Cells.{reserved, widened, copy_cell-Copied, copy_cells-Copied}

module _ {Cell : Type 0} where
  pub assign-DeepCopies : {A : Type 0} → DeepCopies Cell (plain Cell {A = A}) assign
  assign-DeepCopies P m a below h = record {
    grown = omega arith;
    kept = λ k i o. refl;
    alike = refl;
  }

  module _ {A : Type 0} (K : Storage Cell A) (S : Shape Cell A) (copy : Copier Cell A)
      (copies : DeepCopies Cell S copy) where
    pub pointer-DeepCopies : DeepCopies Cell (pointer Cell K S) (copy_pointer K copy)
    unfolding copy_pointer reserve
    pointer-DeepCopies P m none below h = record {
      grown = omega arith;
      kept = λ k i o. refl;
      alike = tt;
    }
    pointer-DeepCopies P m (some p) below (own, own', h) =
        let done =
          copy_cell-Copied K S copy copies P (reserve m) p m.next 0 below (omega arith) own
            (reserved K S copy copies P m p 0 h) in
        record {
          grown = omega (arith, done.grown);
          kept = λ k i o. done.kept k i (omega (arith, o)) (inl (λ e. omega (arith, e, o)));
          alike = (
            own,
            (omega arith, omega (arith, done.grown)),
            widened K S copy copies P m _ p 0 (done.alike 0 (omega arith) (omega arith)),
          );
        }

    pub slice-DeepCopies : DeepCopies Cell (slice Cell K S) (copy_slice K copy)
    unfolding copy_slice reserve
    slice-DeepCopies P m none below h = record {
      grown = omega arith;
      kept = λ k i o. refl;
      alike = tt;
    }
    slice-DeepCopies P m (some s) below (same, own, own', h) =
        let done =
          copy_cells-Copied K S copy copies P s.array m.next s.len 0 (reserve m) below (omega arith)
            own (λ j o o'. reserved K S copy copies P m s.array j (h j (omega (arith, o')))) in
        record {
          grown = omega (arith, done.grown);
          kept = λ k i o. done.kept k i (omega (arith, o)) (inl (λ e. omega (arith, e, o)));
          alike = (
            refl,
            own,
            (omega arith, omega (arith, done.grown)),
            λ i o.
                widened K S copy copies P m _ s.array i
                  (done.alike i (omega arith) (omega (arith, o))),
          );
        }

  -- One field after the other.
  abbrev pub copy_both : {A B : Type 0} → Copier Cell A → Copier Cell B → Copier Cell (A × B)
  copy_both copy copy' (a, b) h = let (x, h₁) = copy a h in let (y, h₂) = copy' b h₁ in ((x, y), h₂)

  module _ {A B : Type 0} (S : Shape Cell A) (T : Shape Cell B) (copy : Copier Cell A)
      (copy' : Copier Cell B) where
    pub both-DeepCopies :
        DeepCopies Cell S copy
        → DeepCopies Cell T copy'
        → DeepCopies Cell (both Cell S T) (copy_both copy copy')
    both-DeepCopies copies copies' P m (a, b) below (h, h') =
        let one = copies P m a below h in
        let m₁ = (copy a m).1 in
        let still : Moves Cell (originals_of P m) (originals_of P m₁) =
          λ k o. (o, λ l. one.kept k l (below k o)) in
        let two =
          copies' P m₁ b (λ k o. omega (arith, below k o, one.grown))
            (T.moves (originals_of P m) (originals_of P m₁) (originals_of P m) (originals_of P m₁) b
              b still still h') in
        let m₂ = (copy' b m₁).1 in
        record {
          grown = omega (arith, one.grown, two.grown);
          kept = λ k i o. two.kept k i (omega (arith, o, one.grown)) ∙ one.kept k i o;
          alike = (
            S.moves (originals_of P m₁) (originals_of P m₂)
                (record { owns = Fresh Cell m m₁; heap = m₁ })
                (record { owns = Fresh Cell m m₂; heap = m₂ }) a (copy a m).0
                (λ k o. (o, λ l. two.kept k l (omega (arith, below k o, one.grown))))
                (λ k o. ((o.0, omega (arith, o.1, two.grown)), λ l. two.kept k l o.1)) one.alike,
            T.moves (originals_of P m₂) (originals_of P m₂)
                (record { owns = Fresh Cell m₁ m₂; heap = m₂ })
                (record { owns = Fresh Cell m m₂; heap = m₂ }) b (copy' b m₁).0
                (λ k o. (o, λ l. refl)) (λ k o. ((omega (arith, o.0, one.grown), o.1), λ l. refl))
                two.alike,
          );
        }
      where
        originals_of : (ℕ → Type 0) → Heap Cell → View Cell
        originals_of P m = record { owns = P; heap = m }

  -- A struct whose copier does with the struct what `copy'` does with the tuple of its fields.
  pub fields-DeepCopies :
      {A B : Type 0} (get : A → B) (S : Shape Cell B) (copy : Copier Cell A) (copy' : Copier Cell B)
      → ((a : A) (m : Heap Cell) → (get (copy a m).0, (copy a m).1) ≡ copy' (get a) m)
      → DeepCopies Cell S copy'
      → DeepCopies Cell (fields Cell get S) copy
  fields-DeepCopies {B} get S copy copy' same copies P m a below h =
      let done =
        subst (λ (out : B × Heap Cell). Copied Cell S P m (get a) out.0 out.1) (sym (same a m))
          (copies P m (get a) below h) in
      record { grown = done.grown; kept = done.kept; alike = done.alike }
