-- ===== src/Aggregator/Registry/Priority.antt =====
-- The bulk registration serves backends in order of priority.
use Prim.Native.Nat.{min}
use mathlib.Core.Path.{◌≡⟨◌⟩◌, ◌∎}
use vectorhawkd.Base.{
  ℕ, ◌+◌, ◌-◌, ◌≡◌, refl, String, List, [], ◌∷◌, arith, length, leb, ltb, keep, ◌++◌, Dict, lookup,
  lookup-insert, lookup-insert_self, eq_iff, ap, ◌∙◌, some,
}
use vectorhawkd.Aggregator.Budget.{ToolBudget, reset, backend_tool_budget}
use vectorhawkd.Aggregator.Backend.{BackendEntry, visible_tools}
use vectorhawkd.Aggregator.Registry.{
  Registry, truncate, register_backends_with_priority, allot, load, load_all, sort_by_priority,
}
use vectorhawkd.Aggregator.Registry.Order.{demand, Lacks}
use vectorhawkd.Aggregator.Registry.Place.{sort_by_priority-IsPlaced}
use vectorhawkd.Aggregator.Registry.Grants.{IsWithin, allot_lem, allot-IsWithin}

load-used :
    (b : ToolBudget) (m : Dict BackendEntry) (e : BackendEntry)
    → IsWithin b
    → IsWithin (load (b, m) e).0
      × ((load (b, m) e).0.used ≡ min backend_tool_budget (b.used + length (visible_tools e)))
unfolding load
load-used b m e h =
    let n = length (visible_tools e) in
    (allot-IsWithin b e.server_id n h, omega (arith, h, (allot_lem b e.server_id n h).1))

load_all-used :
    (b : ToolBudget) (m : Dict BackendEntry) (es : List BackendEntry)
    → IsWithin b
    → IsWithin (load_all (b, m) es).0
      × ((load_all (b, m) es).0.used ≡ min backend_tool_budget (b.used + demand es))
unfolding load_all
load_all-used b m [] h = (h, omega (arith, h))
load_all-used b m (e ∷ es) h =
    let (within, used) = load-used b m e h in
    let (within', used') = load_all-used (load (b, m) e).0 (load (b, m) e).1 es within in
    (within', omega (arith, used, used'))

load_all-append :
    (loaded : ToolBudget × Dict BackendEntry) (es fs : List BackendEntry)
    → load_all loaded (es ++ fs) ≡ load_all (load_all loaded es) fs
unfolding load_all
load_all-append loaded [] fs = refl
load_all-append loaded (e ∷ es) fs = load_all-append (load loaded e) es fs

lookup-load_all :
    (id : String) (loaded : ToolBudget × Dict BackendEntry) (es : List BackendEntry)
    → Lacks id es
    → lookup id (load_all loaded es).1 ≡ lookup id loaded.1
unfolding load_all load
lookup-load_all id loaded [] h = refl
lookup-load_all id loaded (e ∷ es) h =
    lookup-load_all id (load loaded e) es h.1
    ∙ ground (
      arith,
      h.0,
      eq_iff e.server_id id,
      lookup-insert e.server_id id
          (truncate (allot loaded.0 e.server_id (length (visible_tools e))).1 e) loaded.1,
    )

lookup-load :
    (b : ToolBudget) (m : Dict BackendEntry) (e : BackendEntry)
    → IsWithin b
    → lookup e.server_id (load (b, m) e).1
      ≡ some (truncate (min (length (visible_tools e)) (backend_tool_budget - b.used)) e)
unfolding load
lookup-load b m e h =
    rw (allot_lem b e.server_id (length (visible_tools e)) h).0 (lookup-insert_self _ _ _)

-- The tools of the backend that stands between two parts of the order of the bulk load.
register_at :
    (now : ℕ) (entries : List BackendEntry) (r : Registry) (front back : List BackendEntry)
    (e : BackendEntry)
    → sort_by_priority entries ≡ front ++ e ∷ back
    → Lacks e.server_id back
    → lookup e.server_id (register_backends_with_priority now entries r).backends
      ≡ some (truncate (min (length (visible_tools e)) (backend_tool_budget - demand front)) e)
unfolding register_backends_with_priority
register_at now entries r front back e split lacks =
    let zero_used = reset r.budget in
    let (within, used) = load_all-used zero_used [] front (omega arith) in
    let loaded = load_all (zero_used, []) front in
    let left : backend_tool_budget - loaded.0.used ≡ backend_tool_budget - demand front =
      omega (arith, used) in
    lookup e.server_id (load_all (zero_used, []) (sort_by_priority entries)).1
    ≡⟨ ap (λ es. lookup e.server_id (load_all (zero_used, []) es).1) split ⟩
      lookup e.server_id (load_all (zero_used, []) (front ++ e ∷ back)).1
    ≡⟨ ap (λ l. lookup e.server_id l.1) (load_all-append (zero_used, []) front (e ∷ back)) ⟩
      lookup e.server_id (load_all loaded (e ∷ back)).1
    ≡⟨ lookup-load_all e.server_id (load loaded e) back lacks ⟩ lookup e.server_id (load loaded e).1
    ≡⟨ lookup-load loaded.0 loaded.1 e within ⟩
      some (truncate (min (length (visible_tools e)) (backend_tool_budget - loaded.0.used)) e)
    ≡⟨ ap (λ n. some (truncate (min (length (visible_tools e)) n) e)) left ⟩
      some (truncate (min (length (visible_tools e)) (backend_tool_budget - demand front)) e) ∎

-- After a bulk registration, a backend whose id no other entry has keeps as many tools as it
-- shows, cut to what the backends that go first leave of the budget: those given before it with at
-- least its priority, and those given after it with a higher one.
pub register_backends_with_priority_lem :
    (now : ℕ) (r : Registry) (before after : List BackendEntry) (e : BackendEntry)
    → Lacks e.server_id before
    → Lacks e.server_id after
    → lookup e.server_id (register_backends_with_priority now (before ++ e ∷ after) r).backends
      ≡ some (
          truncate
            (min (length (visible_tools e)) (
              backend_tool_budget
              - (demand (keep (λ x. leb e.priority x.priority) before)
                  + demand (keep (λ x. ltb e.priority x.priority) after))))
            e)
register_backends_with_priority_lem now r before after e earlier later =
    let (front, back, split, shown, others, above) =
      sort_by_priority-IsPlaced before after e later earlier in
    register_at now (before ++ e ∷ after) r front back e split others
    ∙ ap (λ n. some (truncate (min (length (visible_tools e)) (backend_tool_budget - n)) e)) shown
