-- ===== src/Python/Values.antt =====
-- What `json.loads` makes of a text, and the dicts that it makes: the values that the program tells
-- apart by `isinstance` and by their truth.
use taboot.Prelude.{
  ℕ, Text, Bool, false, not, Option, none, some, List, [], ◌∷◌, is_empty, ◌==◌, text_eq,
  if◌then◌else◌,
}

pub data Value : Type 0 where
  text : Text → Value
  boolean : Bool → Value
  number : ℕ → Value
  null : Value
  -- A list or a dict, by whether it holds anything.
  compound : Bool → Value

abbrev pub truthy : Value → Bool
truthy (Value.text t) = not (is_empty t)
truthy (Value.boolean b) = b
truthy (Value.number n) = not (n == 0)
truthy Value.null = false
truthy (Value.compound filled) = filled

abbrev pub Dict : Type 0
Dict = List (Text × Value)

-- `d.get(key)`, or `none` where there is no such key
unfoldable pub get : Text → Dict → Option Value
get key [] = none
get key ((k, v) ∷ rest) = if text_eq k key then some v else get key rest

-- `d.get(key, default)`
abbrev pub or_default : Value → Option Value → Value
or_default default none = default
or_default default (some v) = v

-- `a or b`
abbrev pub or_value : Value → Value → Value
or_value a b = if truthy a then a else b

-- `isinstance(v, str)`
abbrev pub as_text : Value → Option Text
as_text (Value.text t) = some t
as_text _ = none
