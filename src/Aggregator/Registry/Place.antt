-- ===== src/Aggregator/Registry/Place.antt =====
-- The place that a backend has in the order of a bulk registration.
use vectorhawkd.Base.{
  ℕ, ◌+◌, ◌≤◌, ◌≡◌, refl, String, List, [], ◌∷◌, arith, length, All, true, false, Bool-cases, inl,
  inr, leb, ltb, keep, ◌<◌, leb→le, ◌++◌, All-imp, ◌≢◌, ap, ◌∙◌,
}
use vectorhawkd.Aggregator.Backend.{BackendEntry, visible_tools}
use vectorhawkd.Aggregator.Registry.{insert_by_priority, sort_by_priority}
use vectorhawkd.Aggregator.Registry.Order.{
  is_first, is_above, IsDescending, demand, Lacks, All-insert_by_priority, sort_by_priority_lem,
  demand-sort_by_priority,
}

-- The place of an entry in the order of the bulk load.
abbrev pub IsPlaced : BackendEntry → ℕ → List BackendEntry → Type 0
IsPlaced e before order =
    (front : List BackendEntry) × (back : List BackendEntry) × (order ≡ front ++ e ∷ back)
    × (demand front ≡ before)
    × Lacks e.server_id back
    × All (λ x. e.priority ≤ x.priority) front

keep_none_above :
    (e : BackendEntry) (xs : List BackendEntry)
    → All (λ x. x.priority ≤ e.priority) xs
    → keep (is_above e) xs ≡ []
keep_none_above e [] h = refl
keep_none_above e (x ∷ xs) h =
    let low : ltb e.priority x.priority ≡ false = ground (arith, h.0) in
    rw low (keep_none_above e xs h.1)

-- The last of the entries to be inserted comes behind those above it.
insert-IsPlaced :
    (e : BackendEntry) (xs : List BackendEntry)
    → IsDescending xs
    → Lacks e.server_id xs
    → IsPlaced e (demand (keep (is_above e) xs)) (insert_by_priority e xs)
unfolding insert_by_priority
insert-IsPlaced e [] down lacks = ([], [], refl, refl, tt, tt)
insert-IsPlaced e (x ∷ xs) down lacks = elim (Bool-cases (leb x.priority e.priority)) [
  | inl first ↦
      let low : x.priority ≤ e.priority = leb→le _ _ first in
      let none_above =
        keep_none_above e (x ∷ xs) (low, All-imp (λ y h. omega (arith, h, low)) xs down.0) in
      rw (first, none_above) ([], x ∷ xs, refl, refl, lacks, tt)
  | inr later ↦
      let high : ltb e.priority x.priority ≡ true = ground (arith, later) in
      let (front, back, split, shown, others, above) = insert-IsPlaced e xs down.1 lacks.1 in
      rw (later, high)
        (
          x ∷ front,
          back,
          ap (λ es. x ∷ es) split,
          omega (arith, shown),
          others,
          (ground (arith, later), above),
        )
]

-- A later insertion keeps the place, and counts if the entry is served first.
insert_before :
    (x e : BackendEntry) (front back : List BackendEntry)
    → e.priority ≤ x.priority
    → insert_by_priority x (front ++ e ∷ back) ≡ insert_by_priority x front ++ e ∷ back
unfolding insert_by_priority
insert_before x e [] back high =
    let now : leb e.priority x.priority ≡ true = ground (arith, high) in rw now refl
insert_before x e (f ∷ front) back high = elim (Bool-cases (leb f.priority x.priority)) [
  | inl first ↦ rw first refl
  | inr later ↦ rw later (ap (λ es. f ∷ es) (insert_before x e front back high))
]

insert_behind :
    (x e : BackendEntry) (front back : List BackendEntry)
    → x.priority < e.priority
    → All (λ f. e.priority ≤ f.priority) front
    → insert_by_priority x (front ++ e ∷ back) ≡ front ++ e ∷ insert_by_priority x back
unfolding insert_by_priority
insert_behind x e [] back low above =
    let later : leb e.priority x.priority ≡ false = ground (arith, low) in rw later refl
insert_behind x e (f ∷ front) back low above =
    let later : leb f.priority x.priority ≡ false = ground (arith, low, above.0) in
    rw later (ap (λ es. f ∷ es) (insert_behind x e front back low above.1))

Lacks-sort : (id : String) (es : List BackendEntry) → Lacks id es → Lacks id (sort_by_priority es)
unfolding sort_by_priority
Lacks-sort id [] lacks = tt
Lacks-sort id (e ∷ es) lacks =
    All-insert_by_priority (λ x. x.server_id ≢ id) e (sort_by_priority es) lacks.0
      (Lacks-sort id es lacks.1)

demand-insert :
    (x : BackendEntry) (xs : List BackendEntry)
    → demand (insert_by_priority x xs) ≡ length (visible_tools x) + demand xs
unfolding insert_by_priority
demand-insert x [] = refl
demand-insert x (y ∷ ys) = elim (Bool-cases (leb y.priority x.priority)) [
  | inl first ↦ rw first refl
  | inr later ↦ rw later (omega (arith, demand-insert x ys))
]

-- In the order of the bulk load, what is served before an entry shows as many tools as the entries
-- given before it with at least its priority and those given after it with a higher one.
pub sort_by_priority-IsPlaced :
    (before after : List BackendEntry) (e : BackendEntry)
    → Lacks e.server_id after
    → Lacks e.server_id before
    → IsPlaced e
        (demand (keep (is_first e) before) + demand (keep (is_above e) after))
        (sort_by_priority (before ++ e ∷ after))
unfolding sort_by_priority
sort_by_priority-IsPlaced [] after e lacks _ =
    let (front, back, split, shown, others, above) =
      insert-IsPlaced e (sort_by_priority after) (sort_by_priority_lem after).0
        (Lacks-sort e.server_id after lacks) in
    (
      front,
      back,
      split,
      omega (arith, shown, demand-sort_by_priority (is_above e) after),
      others,
      above,
    )
sort_by_priority-IsPlaced (x ∷ before) after e lacks (other, earlier) =
    let (front, back, split, shown, others, above) =
      sort_by_priority-IsPlaced before after e lacks earlier in
    elim (Bool-cases (leb e.priority x.priority)) [
      | inl high ↦
          let at_least = leb→le _ _ high in
          rw high (
            insert_by_priority x front,
            back,
            ap (insert_by_priority x) split ∙ insert_before x e front back at_least,
            omega (arith, demand-insert x front, shown),
            others,
            All-insert_by_priority (λ f. e.priority ≤ f.priority) x front at_least above,
          )
      | inr low ↦
          let below : x.priority < e.priority = ground (arith, low) in
          rw low (
            front,
            insert_by_priority x back,
            ap (insert_by_priority x) split ∙ insert_behind x e front back below above,
            shown,
            All-insert_by_priority (λ y. y.server_id ≢ e.server_id) x back other others,
            above,
          )
    ]
