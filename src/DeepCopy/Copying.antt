-- ===== src/DeepCopy/Copying.antt =====
-- A type with its copier and the proof that it copies deeply, built from those of its parts.
use smart_log.Base.{ℕ, ◌≡◌, Option}
use smart_log.Slices.{Slice, Heap}
use smart_log.DeepCopy.{Storage, Copier, assign, copy_pointer, copy_slice}
use smart_log.DeepCopy.Alike
use smart_log.DeepCopy.Alike.{Shape, DeepCopies}
use smart_log.DeepCopy.Pointers.{
  assign-DeepCopies, pointer-DeepCopies, slice-DeepCopies, copy_both, both-DeepCopies,
  fields-DeepCopies,
}

pub record Copying (Cell A : Type 0) : Type 1 where
  pub shape : Shape Cell A
  pub copy : Copier Cell A
  pub copies : DeepCopies Cell shape copy

module _ {Cell : Type 0} where
  abbrev pub plain : {A : Type 0} → Copying Cell A
  plain = record { shape = Alike.plain Cell; copy = assign; copies = assign-DeepCopies }

  abbrev pub pointer : {A : Type 0} → Storage Cell A → Copying Cell A → Copying Cell (Option ℕ)
  pointer K C = record {
    shape = Alike.pointer Cell K C.shape;
    copy = copy_pointer K C.copy;
    copies = pointer-DeepCopies K C.shape C.copy C.copies;
  }

  abbrev pub slice : {A : Type 0} → Storage Cell A → Copying Cell A → Copying Cell (Option Slice)
  slice K C = record {
    shape = Alike.slice Cell K C.shape;
    copy = copy_slice K C.copy;
    copies = slice-DeepCopies K C.shape C.copy C.copies;
  }

  infixr 30 ◌&◌
  abbrev pub ◌&◌ : {A B : Type 0} → Copying Cell A → Copying Cell B → Copying Cell (A × B)
  C & D = record {
    shape = Alike.both Cell C.shape D.shape;
    copy = copy_both C.copy D.copy;
    copies = both-DeepCopies C.shape D.shape C.copy D.copy C.copies D.copies;
  }

  -- A struct, its fields, and its own copier.
  abbrev pub struct :
      {A B : Type 0} (get : A → B) (C : Copying Cell B) (copy : Copier Cell A)
      → ((a : A) (m : Heap Cell) → (get (copy a m).0, (copy a m).1) ≡ C.copy (get a) m)
      → Copying Cell A
  struct get C copy same = record {
    shape = Alike.fields Cell get C.shape;
    copy = copy;
    copies = fields-DeepCopies get C.shape copy C.copy same C.copies;
  }
