-- ===== src/BucketPolicy/Json.antt =====
-- JSON values, and the decodings of encoding/json that the bucket policies use. A json.RawMessage is
-- an optional value: absent if the field was.
use harbor_shield.Prelude.{
  ℕ, Bool, Option, none, some, List, [], ◌∷◌, Text, text_eq, equal_fold, if◌then◌else◌,
}

mutual
  pub data Json : Type 0 where
    null : Json
    boolean : Bool → Json
    number : ℕ → Json
    str : Text → Json
    arr : Items → Json
    obj : Fields → Json

  pub data Items : Type 0 where
    nil : Items
    cons : Json → Items → Items

  pub data Fields : Type 0 where
    end : Fields
    field : Text → Json → Fields → Fields

-- json.Unmarshal into a string: null leaves it empty.
unfoldable pub as_text : Json → Option Text
as_text (str s) = some s
as_text null = some []
as_text _ = none

abbrev prepend : Option Text → Option (List Text) → Option (List Text)
prepend (some s) (some ss) = some (s ∷ ss)
prepend _ _ = none

unfoldable pub items_as_texts : Items → Option (List Text)
unfolding as_text
items_as_texts nil = some []
items_as_texts (cons v vs) = prepend (as_text v) (items_as_texts vs)

-- json.Unmarshal into a []string
unfoldable pub as_texts : Json → Option (List Text)
unfolding items_as_texts
as_texts (arr vs) = items_as_texts vs
as_texts null = some []
as_texts _ = none

drop_key : Text → List (Text × Json) → List (Text × Json)
drop_key k [] = []
drop_key k ((j, v) ∷ m) = let rest = drop_key k m in if text_eq j k then rest else (j, v) ∷ rest

-- The map of an object's fields: the last of two equal keys counts.
unfoldable pub fields_as_map : List (Text × Json) → Fields → List (Text × Json)
unfolding drop_key
fields_as_map m end = m
fields_as_map m (field k v fs) = fields_as_map ((k, v) ∷ drop_key k m) fs

-- json.Unmarshal into a map[string]json.RawMessage
unfoldable pub as_map : Json → Option (List (Text × Json))
unfolding fields_as_map
as_map (obj fs) = some (fields_as_map [] fs)
as_map null = some []
as_map _ = none

-- The field of a struct: the last key that is the name up to case.
unfoldable pub struct_field : Text → Option Json → Fields → Option Json
struct_field name found end = found
struct_field name found (field k v fs) =
    struct_field name (if equal_fold k name then some v else found) fs
