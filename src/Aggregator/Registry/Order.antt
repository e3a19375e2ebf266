-- ===== src/Aggregator/Registry/Order.antt =====
-- The order in which a bulk registration loads its backends.
use mathlib.Core.List.{Perm}
use mathlib.Core.List.Perm
use vectorhawkd.Base.{
  ℕ, ◌+◌, ◌≤◌, ◌≡◌, refl, String, List, [], ◌∷◌, arith, length, All, Bool, Bool-cases, inl, inr,
  leb, ltb, keep, leb→le, All-imp, ◌≢◌, ◌∙◌,
}
use vectorhawkd.Aggregator.Backend.{BackendEntry, visible_tools}
use vectorhawkd.Aggregator.Registry.{insert_by_priority, sort_by_priority}

-- Each backend's priority is at least that of every later one.
abbrev pub IsDescending : List BackendEntry → Type 0
IsDescending [] = Unit
IsDescending (e ∷ es) = All (λ x. x.priority ≤ e.priority) es × IsDescending es

insert_by_priority-perm :
    (e : BackendEntry) (es : List BackendEntry) → Perm (insert_by_priority e es) (e ∷ es)
unfolding insert_by_priority
insert_by_priority-perm e [] = Perm.refl (e ∷ [])
insert_by_priority-perm e (x ∷ xs) = elim (Bool-cases (leb x.priority e.priority)) [
  | inl first ↦ rw first (Perm.refl _)
  | inr later ↦
      rw later (Perm.trans (Perm.cons x (insert_by_priority-perm e xs)) (Perm.swap e x xs))
]

pub All-insert_by_priority :
    (P : BackendEntry → Type 0) (e : BackendEntry) (es : List BackendEntry)
    → P e
    → All P es
    → All P (insert_by_priority e es)
unfolding insert_by_priority
All-insert_by_priority P e [] p h = (p, tt)
All-insert_by_priority P e (x ∷ xs) p h = elim (Bool-cases (leb x.priority e.priority)) [
  | inl first ↦ rw first (p, h)
  | inr later ↦ rw later (h.0, All-insert_by_priority P e xs p h.1)
]

insert_by_priority-IsDescending :
    (e : BackendEntry) (es : List BackendEntry)
    → IsDescending es
    → IsDescending (insert_by_priority e es)
unfolding insert_by_priority
insert_by_priority-IsDescending e [] d = (tt, tt)
insert_by_priority-IsDescending e (x ∷ xs) d = elim (Bool-cases (leb x.priority e.priority)) [
  | inl first ↦
      let p : x.priority ≤ e.priority = leb→le _ _ first in
      rw first ((p, All-imp (λ y h. omega arith) xs d.0), d)
  | inr later ↦ rw later (
    All-insert_by_priority (λ y. y.priority ≤ x.priority) e xs (ground (arith, later)) d.0,
    insert_by_priority-IsDescending e xs d.1,
  )
]

-- The order of a bulk load is the given entries, highest priority first.
pub sort_by_priority_lem :
    (es : List BackendEntry) → IsDescending (sort_by_priority es) × Perm (sort_by_priority es) es
unfolding sort_by_priority
sort_by_priority_lem [] = (tt, Perm.refl [])
sort_by_priority_lem (e ∷ es) =
    let (down, perm) = sort_by_priority_lem es in
    (
      insert_by_priority-IsDescending e (sort_by_priority es) down,
      Perm.trans (insert_by_priority-perm e (sort_by_priority es)) (Perm.cons e perm),
    )

-- The visible tools of a list of entries.
abbrev pub demand : List BackendEntry → ℕ
demand [] = 0
demand (e ∷ es) = length (visible_tools e) + demand es

-- None of the entries has the id.
abbrev pub Lacks : String → List BackendEntry → Type 0
Lacks id es = All (λ e. e.server_id ≢ id) es

-- Who is served before `e`, of the entries given before it and of those after it.
abbrev pub is_first : BackendEntry → BackendEntry → Bool
is_first e x = leb e.priority x.priority

abbrev pub is_above : BackendEntry → BackendEntry → Bool
is_above e x = ltb e.priority x.priority

-- Inserting an entry changes the tools that a part of the list shows by its own.
demand-insert_by_priority :
    (p : BackendEntry → Bool) (x : BackendEntry) (xs : List BackendEntry)
    → demand (keep p (insert_by_priority x xs)) ≡ demand (keep p (x ∷ xs))
unfolding insert_by_priority
demand-insert_by_priority p x [] = refl
demand-insert_by_priority p x (y ∷ ys) = elim (Bool-cases (leb y.priority x.priority)) [
  | inl first ↦ rw first refl
  | inr later ↦
      let ih = demand-insert_by_priority p x ys in
      elim (Bool-cases (p x)) [
        | inl kept ↦ elim (Bool-cases (p y)) [
          | inl also ↦ rw (later, kept, also) (omega (arith, (rw kept at ih)))
          | inr not_y ↦ rw (later, kept, not_y) (rw kept at ih)
        ]
        | inr out ↦ elim (Bool-cases (p y)) [
          | inl also ↦ rw (later, out, also) (omega (arith, (rw out at ih)))
          | inr not_y ↦ rw (later, out, not_y) (rw out at ih)
        ]
      ]
]

pub demand-sort_by_priority :
    (p : BackendEntry → Bool) (es : List BackendEntry)
    → demand (keep p (sort_by_priority es)) ≡ demand (keep p es)
unfolding sort_by_priority
demand-sort_by_priority p [] = refl
demand-sort_by_priority p (e ∷ es) =
    let ih = demand-sort_by_priority p es in
    demand-insert_by_priority p e (sort_by_priority es)
    ∙ (elim (Bool-cases (p e)) [ inl kept ↦ rw kept (omega (arith, ih)) | inr out ↦ rw out ih ])
