-- ===== src/Json.antt =====
-- The values that `json.loads` returns. A number is its literal and whether it equals zero, which
-- is all that the program asks of the numbers it does not validate.
use openontology.Prelude.{
  Bool, true, false, not, Option, none, some, Text, text_eq, is_empty, if◌then◌else◌,
}

mutual
  pub data Json : Type 0 where
    null : Json
    boolean : Bool → Json
    number : (is_zero : Bool) → (literal : Text) → Json
    str : Text → Json
    list : Items → Json
    dict : Fields → Json

  pub data Items : Type 0 where
    no_item : Items
    item : Json → Items → Items

  pub data Fields : Type 0 where
    no_field : Fields
    field : Text → Json → Fields → Fields

-- `d.get(key)`; `json.loads` keeps one value for each key, and the first match is that value.
unfoldable pub get : Text → Fields → Option Json
get key no_field = none
get key (field k v d) = let rest = get key d in if text_eq k key then some v else rest

-- `bool(value)`
abbrev pub truthy : Json → Bool
truthy null = false
truthy (boolean b) = b
truthy (number is_zero literal) = not is_zero
truthy (str s) = not (is_empty s)
truthy (list no_item) = false
truthy (list (item j js)) = true
truthy (dict no_field) = false
truthy (dict (field k v d)) = true

-- `d[key] = value`
unfoldable pub assign : Text → Json → Fields → Fields
assign key value no_field = field key value no_field
assign key value (field k v d) =
    let rest = assign key value d in if text_eq k key then field k value d else field k v rest
