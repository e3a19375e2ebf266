-- ===== src/SchemaGuard.antt =====
-- crates/scenery-core/src/schema_guard.rs: the walk over an untrusted JSON schema. The stack of
-- the source is a list with its top first. Keys are visited in the order of the members.
pub mod Measure
pub mod Walk
use vectorhawkd.Base.{
  ℕ, zero, suc, ◌+◌, String, Bool, Option, none, some, List, [], ◌∷◌, contains, ltb, if◌then◌else◌,
  Result, ok, err,
}
use vectorhawkd.Base.Json.{Json, Items, Fields}

abbrev pub max_schema_nodes : ℕ
max_schema_nodes = 10000

abbrev pub max_schema_depth : ℕ
max_schema_depth = 64

abbrev pub reference_keywords : List String
reference_keywords =
    "$ref" ∷ "$dynamicRef" ∷ "$recursiveRef" ∷ "$anchor" ∷ "$dynamicAnchor" ∷ "$recursiveAnchor"
    ∷ []

pub data SchemaError : Type 0 where
  too_large too_deep : SchemaError
  reference : String → SchemaError

abbrev pub Stack : Type 0
Stack = List (Json × ℕ)

unfoldable pub push_members : Fields → ℕ → Stack → Result SchemaError Stack
push_members Fields.end depth stack = ok stack
push_members (Fields.field key child rest) depth stack =
    let pushed = push_members rest depth ((child, depth) ∷ stack) in
    if contains reference_keywords key then err (reference key) else pushed

unfoldable pub push_items : Items → ℕ → Stack → Stack
push_items Items.nil depth stack = stack
push_items (Items.item child rest) depth stack = push_items rest depth ((child, depth) ∷ stack)

-- The `match` on the popped value.
unfoldable pub push_children : Json → ℕ → Stack → Result SchemaError Stack
unfolding push_members push_items
push_children (Json.object map) depth stack = push_members map depth stack
push_children (Json.array items) depth stack = ok (push_items items depth stack)
push_children _ depth stack = ok stack

abbrev pub Outcome : Type 0
Outcome = Option (Result SchemaError (Unit {0}))

-- The loop, `nodes` the values popped before; `none` where the fuel runs out.
unfoldable pub walk : (max_nodes max_depth fuel : ℕ) → Stack → (nodes : ℕ) → Outcome
unfolding push_children
walk max_nodes max_depth fuel [] nodes = some (ok tt)
walk max_nodes max_depth zero (top ∷ stack) nodes = none
walk max_nodes max_depth (suc fuel) ((value, depth) ∷ stack) nodes =
    let next : Outcome = elim (push_children value (suc depth) stack) [
      | err e ↦ some (err e)
      | ok rest ↦ walk max_nodes max_depth fuel rest (suc nodes)
    ] in
    if ltb max_nodes (suc nodes)
    then some (err too_large)
    else if ltb max_depth depth
    then some (err too_deep)
    else next

unfoldable pub check_schema_safe : Json → Outcome
unfolding walk
check_schema_safe schema =
    walk max_schema_nodes max_schema_depth (suc max_schema_nodes) ((schema, 1) ∷ []) 0
