-- ===== src/Base/Json.antt =====
-- `serde_json::Value`. A number is kept as its text; an object is the list of its members, each
-- key once. The lists are types of the same block.
use Prim.Native.String.{String}
use mathlib.Core.Bool.{Bool}
use mathlib.Core.List.{List, [], ◌∷◌}
use mathlib.Core.Option.{Option, none, some}
use text.Mathlib.Text.{◌==◌}
use vectorhawkd.Base.Tests.{if◌then◌else◌}

mutual
  pub data Json : Type 0 where
    null : Json
    boolean : Bool → Json
    number : String → Json
    string : String → Json
    array : Items → Json
    object : Fields → Json

  pub data Items : Type 0 where
    nil : Items
    item : Json → Items → Items

  pub data Fields : Type 0 where
    end : Fields
    field : String → Json → Fields → Fields

abbrev pub member : String → Fields → Option Json
member key end = none
member key (field k v rest) = if k == key then some v else member key rest

-- `value.get(key)`: of anything but an object, nothing.
abbrev pub get : String → Json → Option Json
get key (object fields) = member key fields
get key _ = none

abbrev pub as_str : Json → Option String
as_str (string s) = some s
as_str _ = none

abbrev pub as_object : Json → Option Fields
as_object (object fields) = some fields
as_object _ = none

abbrev pub elements : Items → List Json
elements nil = []
elements (item v rest) = v ∷ elements rest

abbrev pub members : Fields → List (String × Json)
members end = []
members (field k v rest) = (k, v) ∷ members rest

abbrev pub keys : Fields → List String
keys end = []
keys (field k v rest) = k ∷ keys rest
