-- ===== src/SchemaGuard/Measure.antt =====
-- Size, height and cleanness of a schema, and what a step of the walk does to those of its stack.
use Prim.Native.Nat.{max}
use vectorhawkd.Base.{
  ℕ, suc, ◌+◌, ◌≤◌, ◌≡◌, ◌∙◌, sym, ◌↔◌, String, true, false, [], ◌∷◌, arith, contains, Result, ok,
  err, All, Bool-cases, inl, inr,
}
use vectorhawkd.Base.Json.{Json, Items, Fields}
use vectorhawkd.SchemaGuard.{Stack, SchemaError, reference_keywords, push_members, push_items}

abbrev mutual
  -- The values of a schema, itself included.
  pub size : Json → ℕ
  size (Json.array items) = suc (items_size items)
  size (Json.object map) = suc (members_size map)
  size _ = 1

  pub items_size : Items → ℕ
  items_size Items.nil = 0
  items_size (Items.item v rest) = size v + items_size rest

  pub members_size : Fields → ℕ
  members_size Fields.end = 0
  members_size (Fields.field k v rest) = size v + members_size rest

abbrev mutual
  -- The levels of a schema; a scalar has one.
  pub height : Json → ℕ
  height (Json.array items) = suc (items_height items)
  height (Json.object map) = suc (members_height map)
  height _ = 1

  pub items_height : Items → ℕ
  items_height Items.nil = 0
  items_height (Items.item v rest) = max (height v) (items_height rest)

  pub members_height : Fields → ℕ
  members_height Fields.end = 0
  members_height (Fields.field k v rest) = max (height v) (members_height rest)

abbrev mutual
  -- No object of the schema has a key that refers to a schema.
  pub IsClean : Json → Type 0
  IsClean (Json.array items) = AreClean items
  IsClean (Json.object map) = HasCleanKeys map
  IsClean _ = Unit

  pub AreClean : Items → Type 0
  AreClean Items.nil = Unit
  AreClean (Items.item v rest) = IsClean v × AreClean rest

  pub HasCleanKeys : Fields → Type 0
  HasCleanKeys Fields.end = Unit
  HasCleanKeys (Fields.field k v rest) =
      (contains reference_keywords k ≡ false) × IsClean v × HasCleanKeys rest

-- A value at a depth is clean and reaches no deeper than the limit.
abbrev pub IsFit : ℕ → Json × ℕ → Type 0
IsFit limit (v, depth) = (depth + height v ≤ suc limit) × IsClean v

abbrev pub stack_size : Stack → ℕ
stack_size [] = 0
stack_size ((v, depth) ∷ stack) = size v + stack_size stack

pub push_items_lem :
    (limit depth : ℕ) (items : Items) (stack : Stack)
    → depth ≤ suc limit
    → (stack_size (push_items items depth stack) ≡ items_size items + stack_size stack)
      × (All (IsFit limit) (push_items items depth stack)
          ↔ ((depth + items_height items ≤ suc limit) × AreClean items × All (IsFit limit) stack))
unfolding push_items
push_items_lem limit depth Items.nil stack h = (omega arith, (λ a. (omega arith, tt, a), λ a. a.2))
push_items_lem limit depth (Items.item v rest) stack h =
    let ih = push_items_lem limit depth rest ((v, depth) ∷ stack) h in
    (
      omega (arith, ih.0),
      (
        λ a. let b = ih.1.0 a in (omega (arith, b.0, b.2.0.0), (b.2.0.1, b.1), b.2.1),
        λ a. ih.1.1 (omega (arith, a.0), a.1.1, ((omega (arith, a.0), a.1.0), a.2)),
      ),
    )

-- What pushing the members of an object gives.
abbrev pub IsPushed : ℕ → ℕ → Fields → Stack → Result SchemaError Stack → Type 0
IsPushed limit depth map stack (err e) = ¬ HasCleanKeys map
IsPushed limit depth map stack (ok next) =
    (stack_size next ≡ members_size map + stack_size stack)
    × (All (IsFit limit) next
        ↔ ((depth + members_height map ≤ suc limit) × HasCleanKeys map × All (IsFit limit) stack))

push_member :
    (limit depth : ℕ) (k : String) (v : Json) (rest : Fields) (stack : Stack)
    → contains reference_keywords k ≡ false
    → (r : Result SchemaError Stack) → IsPushed limit depth rest ((v, depth) ∷ stack) r
    → IsPushed limit depth (Fields.field k v rest) stack r
push_member limit depth k v rest stack plain (err e) n = λ c. n c.2
push_member limit depth k v rest stack plain (ok next) ih = (
  omega (arith, ih.0),
  (
    λ a. let b = ih.1.0 a in (omega (arith, b.0, b.2.0.0), (plain, b.2.0.1, b.1), b.2.1),
    λ a. ih.1.1 (omega (arith, a.0), a.1.2, ((omega (arith, a.0), a.1.1), a.2)),
  ),
)

pub push_members_lem :
    (limit depth : ℕ) (map : Fields) (stack : Stack)
    → depth ≤ suc limit
    → IsPushed limit depth map stack (push_members map depth stack)
unfolding push_members
push_members_lem limit depth Fields.end stack h =
    (omega arith, (λ a. (omega arith, tt, a), λ a. a.2))
push_members_lem limit depth (Fields.field k v rest) stack h =
    let ih = push_members_lem limit depth rest ((v, depth) ∷ stack) h in
    elim (Bool-cases (contains reference_keywords k)) [
      | inl refers ↦ rw refers (λ c. let e : false ≡ true = sym c.0 ∙ refers in cc)
      | inr plain ↦ rw plain (push_member limit depth k v rest stack plain _ ih)
    ]
