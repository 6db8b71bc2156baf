-- ===== src/Json.antt =====
-- Parsed JSON, as the values of Python's json module; a number is kept as it is written.
use redfish_python_sdk.Prelude.{
  Bool, Option, none, some, List, [], ◌∷◌, Text, text_eq, if◌then◌else◌,
}

mutual
  pub data Json : Type 0 where
    null : Json
    bool : Bool → Json
    number : Text → Json
    string : Text → Json
    array : Items → Json
    object : Fields → Json

  pub data Items : Type 0 where
    end : Items
    item : Json → Items → Items

  pub data Fields : Type 0 where
    empty : Fields
    field : Text → Json → Fields → Fields

-- d.get(key) of a dict
unfoldable pub get_field : Text → Fields → Option Json
get_field key empty = none
get_field key (field k v rest) = if text_eq k key then some v else get_field key rest

unfoldable pub items : Items → List Json
items end = []
items (item v rest) = v ∷ items rest
