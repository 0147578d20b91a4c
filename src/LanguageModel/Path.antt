-- ===== src/LanguageModel/Path.antt =====
-- Which text of a response is the answer.
use smart_log.Base.{String, ◌≡◌, refl, ◌↔◌, List, [], ◌∷◌, subst}
use smart_log.Errors.{ok}
use smart_log.Json.{
  Json, null, boolean, number, text, array, object, Items, no_items, item, Fields, field_value,
}
use smart_log.LanguageModel.{extract, step_into, first_item, as_text}

-- The text stands in the value at the path: by keys in objects and by the first element in arrays.
pub data At : List String → Json → String → Type 0 where
  here : {t : String} → At [] (text t) t
  key :
      {part : String} {parts : List String} {fields : Fields} {t : String}
      → At parts (field_value part fields) t
      → At (part ∷ parts) (object fields) t
  first :
      {part : String} {parts : List String} {v : Json} {rest : Items} {t : String}
      → At parts v t
      → At (part ∷ parts) (array (item v rest)) t

text_injective : {a b : String} → ok a ≡ ok b → a ≡ b
text_injective e = cc

At-extract :
    (whole : List String) {path : List String} {v : Json} {t : String}
    → At path v t
    → extract whole path v ≡ ok t
unfolding extract step_into first_item as_text
At-extract whole here = refl
At-extract whole (key at) = At-extract whole at
At-extract whole (first at) = At-extract whole at

extract-At :
    (whole path : List String) (v : Json) (t : String) → extract whole path v ≡ ok t → At path v t
unfolding extract step_into first_item as_text
extract-At whole [] (text x) t h = subst (At [] (text x)) (text_injective h) here
extract-At whole [] null t h = absurd cc
extract-At whole [] (boolean b) t h = absurd cc
extract-At whole [] (number n) t h = absurd cc
extract-At whole [] (array elements) t h = absurd cc
extract-At whole [] (object members) t h = absurd cc
extract-At whole (part ∷ parts) (object members) t h =
    key (extract-At whole parts (field_value part members) t h)
extract-At whole (part ∷ parts) (array (item v rest)) t h = first (extract-At whole parts v t h)
extract-At whole (part ∷ parts) (array no_items) t h = absurd cc
extract-At whole (part ∷ parts) null t h = absurd cc
extract-At whole (part ∷ parts) (boolean b) t h = absurd cc
extract-At whole (part ∷ parts) (number n) t h = absurd cc
extract-At whole (part ∷ parts) (text x) t h = absurd cc

-- The walk over a decoded response gives a text exactly when it stands at the path, where a segment
-- takes the value of its key in an object and the first element of an array, whatever it says.
pub extract_exact :
    (whole path : List String) (v : Json) (t : String) → (extract whole path v ≡ ok t) ↔ At path v t
extract_exact whole path v t = (extract-At whole path v t, λ at. At-extract whole at)
