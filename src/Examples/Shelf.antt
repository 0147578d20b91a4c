-- ===== src/Examples/Shelf.antt =====
-- Objects of one kind on the server, found by their names.
use smart_log.Base.{◌==◌, eq_iff, eq_refl, ◌≡◌, Bool, ◌&&◌, Option, none, some}
use smart_log.Base.{List, [], ◌∷◌, arith, if◌then◌else◌}
use smart_log.Errors.{Error, not_found, Result, ok, err}
use smart_log.Api.{NamespacedName, key_string}

module _ {A : Type 0} (key_of : A → NamespacedName) where
  abbrev pub holds : NamespacedName → A → Bool
  holds key a = (key_of a).name == key.name && (key_of a).namespace == key.namespace

  abbrev pub get : List A → NamespacedName → Result A
  get [] key = err (not_found (key_string key))
  get (a ∷ rest) key = if holds key a then ok a else get rest key

  abbrev pub put : A → List A → Option Error × List A
  put a [] = (some (not_found (key_string (key_of a))), [])
  put a (b ∷ rest) =
      if holds (key_of a) b then (none, a ∷ rest) else ((put a rest).0, b ∷ (put a rest).1)

  pub get_named :
      (objects : List A) (key : NamespacedName) (a : A)
      → get objects key ≡ ok a
      → ((key_of a).name ≡ key.name) × ((key_of a).namespace ≡ key.namespace)
  get_named [] key a h = absurd (ground arith)
  get_named (b ∷ rest) key a h = ground (
    arith,
    eq_iff (key_of b).name key.name,
    eq_iff (key_of b).namespace key.namespace,
    get_named rest key a,
  )

  pub get-put :
      (a : A) (objects : List A)
      → (put a objects).0 ≡ none
      → get (put a objects).1 (key_of a) ≡ ok a
  get-put a [] h = absurd (ground arith)
  get-put a (b ∷ rest) h =
      ground (arith, eq_refl (key_of a).name, eq_refl (key_of a).namespace, get-put a rest)
