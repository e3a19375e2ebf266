-- ===== src/SchemaGuard/Walk.antt =====
-- The walk ends within its fuel, and accepts exactly the schemas that are small, flat and clean.
use vectorhawkd.Base.{
  ℕ, zero, suc, ◌+◌, ◌≤◌, ◌<◌, ◌≡◌, ◌⊎◌, ltb→lt, refl, ◌↔◌, none, some, [], ◌∷◌, arith, ltb, Result,
  ok, err, All, Bool-cases, inl, inr,
}
use vectorhawkd.Base.Json.{Json, Fields}
use vectorhawkd.SchemaGuard.{
  Stack, SchemaError, Outcome, max_schema_nodes, max_schema_depth, push_children, walk,
  check_schema_safe,
}
use vectorhawkd.SchemaGuard.Measure.{
  size, height, IsClean, IsFit, stack_size, push_items_lem, push_members_lem, IsPushed,
}

size_pos : (v : Json) → 1 ≤ size v
size_pos (Json.array items) = omega arith
size_pos (Json.object map) = omega arith
size_pos _ = omega arith

height_pos : (v : Json) → 1 ≤ height v
height_pos (Json.array items) = omega arith
height_pos (Json.object map) = omega arith
height_pos _ = omega arith

-- What a popped value leaves on the stack.
abbrev IsStep : ℕ → ℕ → Json → Stack → Result SchemaError Stack → Type 0
IsStep limit depth v stack (err e) = ¬ IsClean v
IsStep limit depth v stack (ok next) =
    (suc (stack_size next) ≡ size v + stack_size stack)
    × (All (IsFit limit) next ↔ (IsFit limit (v, depth) × All (IsFit limit) stack))

pushed-IsStep :
    (limit depth : ℕ) (map : Fields) (stack : Stack) (r : Result SchemaError Stack)
    → IsPushed limit (suc depth) map stack r
    → IsStep limit depth (Json.object map) stack r
pushed-IsStep limit depth map stack (err e) n = n
pushed-IsStep limit depth map stack (ok next) p = (
  omega (arith, p.0),
  (
    λ a. let b = p.1.0 a in ((omega (arith, b.0), b.1), b.2),
    λ a. p.1.1 (omega (arith, a.0.0), a.0.1, a.1),
  ),
)

leaf-IsStep :
    (limit depth : ℕ) (v : Json) (stack : Stack)
    → depth ≤ limit
    → size v ≡ 1
    → height v ≡ 1
    → IsClean v
    → IsStep limit depth v stack (ok stack)
leaf-IsStep limit depth v stack h one flat clean =
    (omega (arith, one), (λ a. ((omega (arith, flat), clean), a), λ a. a.1))

push_children-IsStep :
    (limit depth : ℕ) (v : Json) (stack : Stack)
    → depth ≤ limit
    → IsStep limit depth v stack (push_children v (suc depth) stack)
unfolding push_children
push_children-IsStep limit depth (Json.object map) stack h =
    pushed-IsStep limit depth map stack _
      (push_members_lem limit (suc depth) map stack (omega arith))
push_children-IsStep limit depth (Json.array items) stack h =
    let p = push_items_lem limit (suc depth) items stack (omega arith) in
    (
      omega (arith, p.0),
      (
        λ a. let b = p.1.0 a in ((omega (arith, b.0), b.1), b.2),
        λ a. p.1.1 (omega (arith, a.0.0), a.0.1, a.1),
      ),
    )
push_children-IsStep limit depth Json.null stack h =
    leaf-IsStep limit depth Json.null stack h refl refl tt
push_children-IsStep limit depth (Json.boolean b) stack h =
    leaf-IsStep limit depth (Json.boolean b) stack h refl refl tt
push_children-IsStep limit depth (Json.number n) stack h =
    leaf-IsStep limit depth (Json.number n) stack h refl refl tt
push_children-IsStep limit depth (Json.string s) stack h =
    leaf-IsStep limit depth (Json.string s) stack h refl refl tt

-- What a walk decides about the stack it starts from, `nodes` values in.
abbrev Decides : (max_nodes max_depth nodes : ℕ) → Stack → Outcome → Type 0
Decides max_nodes max_depth nodes stack none = ⊥
Decides max_nodes max_depth nodes stack (some (err e)) =
    ¬ ((nodes + stack_size stack ≤ max_nodes) × All (IsFit max_depth) stack)
Decides max_nodes max_depth nodes stack (some (ok done)) =
    (nodes + stack_size stack ≤ max_nodes) × All (IsFit max_depth) stack

Decides-step :
    (max_nodes max_depth nodes depth : ℕ) (v : Json) (stack next : Stack) (o : Outcome)
    → IsStep max_depth depth v stack (ok next)
    → Decides max_nodes max_depth (suc nodes) next o
    → Decides max_nodes max_depth nodes ((v, depth) ∷ stack) o
Decides-step max_nodes max_depth nodes depth v stack next none step d = d
Decides-step max_nodes max_depth nodes depth v stack next (some (err e)) step d =
    λ a. d (omega (arith, a.0, step.0), step.1.1 a.1)
Decides-step max_nodes max_depth nodes depth v stack next (some (ok done)) step d =
    (omega (arith, d.0, step.0), step.1.0 d.1)

Decides-children :
    (max_nodes max_depth fuel nodes depth : ℕ) (v : Json) (stack : Stack)
    (r : Result SchemaError Stack)
    → IsStep max_depth depth v stack r
    → ((next : Stack)
        → Decides max_nodes max_depth
            (suc nodes)
            next
            (walk max_nodes max_depth fuel next (suc nodes)))
    → (let o : Outcome = elim r [
      | err e ↦ some (err e)
      | ok rest ↦ walk max_nodes max_depth fuel rest (suc nodes)
    ] in
        Decides max_nodes max_depth nodes ((v, depth) ∷ stack) o)
Decides-children max_nodes max_depth fuel nodes depth v stack (err e) unclean d =
    λ a. unclean a.1.0.1
Decides-children max_nodes max_depth fuel nodes depth v stack (ok next) step d =
    Decides-step max_nodes max_depth nodes depth v stack next _ step (d next)

walk-Decides :
    (max_nodes max_depth fuel : ℕ) (stack : Stack) (nodes : ℕ)
    → nodes ≤ max_nodes
    → max_nodes < fuel + nodes
    → Decides max_nodes max_depth nodes stack (walk max_nodes max_depth fuel stack nodes)
unfolding walk
walk-Decides max_nodes max_depth zero [] nodes h f = (omega arith, tt)
walk-Decides max_nodes max_depth (suc fuel) [] nodes h f = (omega arith, tt)
walk-Decides max_nodes max_depth zero (top ∷ stack) nodes h f = absurd (omega arith)
walk-Decides max_nodes max_depth (suc fuel) ((v, depth) ∷ stack) nodes h f =
    elim (Bool-cases (ltb max_nodes (suc nodes))) [
      | inl large ↦
          rw large
            (λ a. let low = ltb→lt max_nodes (suc nodes) large in omega (arith, a.0, size_pos v))
      | inr small ↦ elim (Bool-cases (ltb max_depth depth)) [
        | inl deep ↦
            rw (small, deep)
              (λ a. let low = ltb→lt max_depth depth deep in omega (arith, a.1.0.0, height_pos v))
        | inr flat ↦
            rw (small, flat)
              (Decides-children max_nodes max_depth fuel nodes depth v stack
                (push_children v (suc depth) stack)
                (push_children-IsStep max_depth depth v stack (ground arith))
                (λ next.
                  walk-Decides max_nodes max_depth fuel next (suc nodes) (ground arith)
                    (omega arith)))
      ]
    ]

-- A schema that is safe to compile.
abbrev pub IsSafe : Json → Type 0
IsSafe schema =
    (size schema ≤ max_schema_nodes) × (height schema ≤ max_schema_depth) × IsClean schema

decided :
    (schema : Json) (o : Outcome)
    → Decides max_schema_nodes max_schema_depth 0 ((schema, 1) ∷ []) o
    → ((o ≡ some (ok tt)) × IsSafe schema)
      ⊎ ((e : SchemaError) × (o ≡ some (err e)) × (¬ IsSafe schema))
decided schema none d = absurd d
decided schema (some (ok done)) d =
    inl (refl, (omega (arith, d.0), omega (arith, d.1.0.0), d.1.0.1))
decided schema (some (err e)) d =
    inr (e, refl, λ a. d (omega (arith, a.0), ((omega (arith, a.1), a.2), tt)))

-- The check ends within its fuel. It accepts exactly the schemas with at most 10000 values, at
-- most 64 levels and no key of an object, at any level, among the reference keywords.
pub check_schema_safe_lem :
    (schema : Json)
    → ((check_schema_safe schema ≡ some (ok tt)) × IsSafe schema)
      ⊎ ((e : SchemaError) × (check_schema_safe schema ≡ some (err e)) × (¬ IsSafe schema))
unfolding check_schema_safe
check_schema_safe_lem schema = decided schema _ (
    walk-Decides max_schema_nodes max_schema_depth (suc max_schema_nodes) ((schema, 1) ∷ []) 0
      (omega arith) (omega arith))
