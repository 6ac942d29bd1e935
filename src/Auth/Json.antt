-- ===== src/Auth/Json.antt =====
-- What json.load gives: values, lists of values and mappings.
use hpfeeds.Prelude.{[], Bool, true, false, not, Option, none, some, if◌then◌else◌, text_eq}
use hpfeeds.Python.Result.{Result, ok, err, key_error, type_error}
use hpfeeds.Python.Values.{Text}

-- A number is known by whether it is 0, and by its literal.
mutual
  pub data Json : Type 0 where
    null : Json
    boolean : Bool → Json
    number : Bool → Text → Json
    string : Text → Json
    array : Items → Json
    object : Fields → Json

  pub data Items : Type 0 where
    no_items : Items
    item : Json → Items → Items

  pub data Fields : Type 0 where
    no_fields : Fields
    field : Text → Json → Fields → Fields

-- d.get(key, None)
abbrev pub get_field : Text → Fields → Option Json
get_field key no_fields = none
get_field key (field k v fs) = if text_eq k key then some v else get_field key fs

-- bool(value)
abbrev pub truthy : Json → Bool
truthy null = false
truthy (boolean b) = b
truthy (number zero? literal) = not zero?
truthy (string []) = false
truthy (array no_items) = false
truthy (object no_fields) = false
truthy _ = true

-- isinstance(value, list)
abbrev pub is_list : Json → Bool
is_list (array items) = true
is_list _ = false

abbrev pub found_or_raise : Option Json → Result Json
found_or_raise none = err key_error
found_or_raise (some v) = ok v

-- value[key]
abbrev pub subscript : Text → Json → Result Json
subscript key (object fs) = found_or_raise (get_field key fs)
subscript key _ = err type_error
