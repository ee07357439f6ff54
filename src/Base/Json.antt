-- ===== src/Base/Json.antt =====
-- Values of `json.loads`: None, bool, int, str, list and dict. Numbers with a fraction or an
-- exponent are not modelled.
use Prim.Native.String.{String}
use mathlib.Core.Bool.{Bool, true, false}
use rc_node.Base.Int.{ℤ}
use rc_node.Base.Text.{int, is_nonempty}
use rc_node.Base.Dict.{Dict, lookup}
use rc_node.Base.Equality.{string_eq}
use rc_node.Base.Exception.{Result, ok}
use mathlib.Core.Option.{Option, none, some}
use mathlib.Core.List.{List, [], ◌∷◌}
use mathlib.Core.Path.{◌≡◌, refl, ap}
use Prim.Native.Nat.{zero}

mutual
  pub data Json : Type 0 where
    null : Json
    boolean : Bool → Json
    number : ℤ → Json
    text : String → Json
    array : Items → Json
    object : Fields → Json

  pub data Items : Type 0 where
    nil : Items
    cons : Json → Items → Items

  pub data Fields : Type 0 where
    end : Fields
    field : String → Json → Fields → Fields

-- `bool(value)`
unfoldable pub truthy : Json → Bool
truthy null = false
truthy (boolean b) = b
truthy (number (ℤ.pos zero)) = false
truthy (number n) = true
truthy (text s) = is_nonempty s
truthy (array nil) = false
truthy (array items) = true
truthy (object end) = false
truthy (object fields) = true

-- An object as a dict, and a dict as an object.
abbrev pub entries : Fields → Dict String Json
entries end = []
entries (field k v fields) = (k, v) ∷ entries fields

abbrev pub of_entries : Dict String Json → Fields
of_entries [] = end
of_entries ((k, v) ∷ d) = field k v (of_entries d)

abbrev pub elements : Items → List Json
elements nil = []
elements (cons v items) = v ∷ elements items

abbrev pub of_elements : List Json → Items
of_elements [] = nil
of_elements (v ∷ vs) = cons v (of_elements vs)

pub entries-of_entries : (d : Dict String Json) → entries (of_entries d) ≡ d
entries-of_entries [] = refl
entries-of_entries ((k, v) ∷ d) = ap (◌∷◌ (k, v)) (entries-of_entries d)

-- `int(value)`; `none` stands for a TypeError or a ValueError.
abbrev pub int_json : Json → Option ℤ
int_json (number n) = some n
int_json (boolean true) = some (ℤ.pos 1)
int_json (boolean false) = some (ℤ.pos 0)
int_json (text s) = int s
int_json _ = none

-- What Python makes of other values than those that the agent expects: `str(value)` of a value that
-- is no text, and `dict(value)` of a value that is no object.
pub record Coercions : Type 0 where
  pub other_str : Json → String
  pub other_dict : Json → Result (Dict String Json)

abbrev pub str_json : Coercions → Json → String
str_json py (text s) = s
str_json py v = py.other_str v

abbrev pub dict_json : Coercions → Json → Result (Dict String Json)
dict_json py (object fields) = ok (entries fields)
dict_json py v = py.other_dict v

-- `d.get(key)`, where a missing key is `None`.
abbrev pub get_json : String → Dict String Json → Json
get_json key d = elim (lookup key d) [ none ↦ null | some v ↦ v ]

-- `isinstance(value, dict)`
abbrev pub as_dict : Json → Option (Dict String Json)
as_dict (object fields) = some (entries fields)
as_dict _ = none
