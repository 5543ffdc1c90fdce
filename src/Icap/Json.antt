-- ===== src/Icap/Json.antt =====
-- A decoded JSON value, as encoding/json makes it of a text: Go's `interface{}`. Numbers keep their
-- text, and the fields of an object stand in the order of one iteration over Go's map.
use ai_scan_interceptor.Base.{Bool, List, [], ◌∷◌, ◌++◌, Bytes}

mutual
  pub data Json : Type 0 where
    null : Json
    boolean : Bool → Json
    number : Bytes → Json
    string : Bytes → Json
    array : Items → Json
    object : Fields → Json

  pub data Items : Type 0 where
    nil : Items
    cons : Json → Items → Items

  pub data Fields : Type 0 where
    end : Fields
    field : Bytes → Json → Fields → Fields

-- the values that are strings, from the left
unfoldable mutual
  pub strings : Json → List Bytes
  strings null = []
  strings (boolean b) = []
  strings (number n) = []
  strings (string s) = s ∷ []
  strings (array xs) = item_strings xs
  strings (object fs) = field_strings fs

  pub item_strings : Items → List Bytes
  item_strings nil = []
  item_strings (cons x xs) = strings x ++ item_strings xs

  pub field_strings : Fields → List Bytes
  field_strings end = []
  field_strings (field k x fs) = strings x ++ field_strings fs

-- every string value replaced by `f` of it
unfoldable mutual
  pub map_strings : (Bytes → Bytes) → Json → Json
  map_strings f null = null
  map_strings f (boolean b) = boolean b
  map_strings f (number n) = number n
  map_strings f (string s) = string (f s)
  map_strings f (array xs) = array (map_items f xs)
  map_strings f (object fs) = object (map_fields f fs)

  pub map_items : (Bytes → Bytes) → Items → Items
  map_items f nil = nil
  map_items f (cons x xs) = cons (map_strings f x) (map_items f xs)

  pub map_fields : (Bytes → Bytes) → Fields → Fields
  map_fields f end = end
  map_fields f (field k x fs) = field k (map_strings f x) (map_fields f fs)
