-- ===== src/Json.antt =====
-- JSON values, as `interface{}` values of encoding/json: a decoded object has each key once.
use smart_log.Base.{String, Bool, List, [], ◌∷◌, ◌==◌, if◌then◌else◌}

mutual
  -- A number is its decimal text.
  pub data Json : Type 0 where
    null : Json
    boolean : Bool → Json
    number text : String → Json
    array : Items → Json
    object : Fields → Json

  pub data Items : Type 0 where
    no_items : Items
    item : Json → Items → Items

  pub data Fields : Type 0 where
    no_fields : Fields
    field : String → Json → Fields → Fields

abbrev pub items : List Json → Items
items [] = no_items
items (v ∷ vs) = item v (items vs)

abbrev pub array_of : List Json → Json
array_of values = array (items values)

-- `m[key]`, where a key that is missing gives nil.
unfoldable pub field_value : String → Fields → Json
field_value key no_fields = null
field_value key (field k v fields) = if k == key then v else field_value key fields
