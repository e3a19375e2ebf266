-- ===== src/Aggregator/Registry/Grants.antt =====
-- How many slots a registration grants, in closed form.
use Prim.Native.Nat.{min}
use vectorhawkd.Base.{
  ℕ, ◌+◌, ◌-◌, ◌≤◌, ◌≡◌, String, some, arith, length, lookup, lookup-insert_self,
}
use vectorhawkd.Aggregator.Budget.{ToolBudget, backend_tool_budget}
use vectorhawkd.Aggregator.Backend.{BackendEntry, visible_tools}
use vectorhawkd.Aggregator.Registry.{Registry, allot, truncate, register_backend}

abbrev pub IsWithin : ToolBudget → Type 0
IsWithin b = b.used ≤ backend_tool_budget

-- The slots are the visible tools, cut to what is left, and they are charged to the budget.
pub allot_lem :
    (b : ToolBudget) (id : String) (n : ℕ)
    → IsWithin b
    → ((allot b id n).1 ≡ min n (backend_tool_budget - b.used))
      × ((allot b id n).0.used ≡ b.used + min n (backend_tool_budget - b.used))
unfolding allot
allot_lem b id n h = ground arith

pub allot-IsWithin : (b : ToolBudget) (id : String) (n : ℕ) → IsWithin b → IsWithin (allot b id n).0
allot-IsWithin b id n h = omega (arith, (allot_lem b id n h).1)

-- A registered server is found again with its tools cut to the slots that were left, and the
-- budget grows by as many slots as were granted.
pub register_backend_lem :
    (now : ℕ) (e : BackendEntry) (r : Registry)
    → IsWithin r.budget
    → let slots = min (length (visible_tools e)) (backend_tool_budget - r.budget.used) in
      (lookup e.server_id (register_backend now e r).backends ≡ some (truncate slots e))
      × ((register_backend now e r).budget.used ≡ r.budget.used + slots)
unfolding register_backend
register_backend_lem now e r h =
    let (slots, used) = allot_lem r.budget e.server_id (length (visible_tools e)) h in
    (rw slots (lookup-insert_self _ _ _), used)
