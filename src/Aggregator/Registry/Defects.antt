-- ===== src/Aggregator/Registry/Defects.antt =====
-- Where the registration does not do what its comments say: it cuts a backend's whole list of
-- tools to the number of its visible ones, and a refresh is charged once more.
use Prim.Native.Nat.{min}
use vectorhawkd.Base.{
  ℕ, zero, suc, ◌+◌, ◌-◌, ◌*◌, ◌≤◌, ◌≡◌, refl, ap, ◌∙◌, String, Bool, false, some, List, [], ◌∷◌,
  ◌++◌, arith, length, take, keep, contains, lookup,
}
use vectorhawkd.Aggregator.Budget.{backend_tool_budget}
use vectorhawkd.Aggregator.Backend.{ToolDefinition, curated, BackendEntry, filter, visible_tools}
use vectorhawkd.Aggregator.Registry.{Registry, truncate, register_backend}
use vectorhawkd.Aggregator.Registry.Grants.{IsWithin, register_backend_lem}

truncate_zero :
    (n : ℕ) (e : BackendEntry) → n ≡ 0 → some (truncate n e) ≡ some (record e { tools = [] })
truncate_zero n e none_left = ap (λ (k : ℕ). some (truncate k e)) none_left

-- A backend that shows no tool when it is registered, such as one that is on demand or unhealthy,
-- is stored without any tool.
pub hidden-loses_tools :
    (now : ℕ) (e : BackendEntry) (r : Registry)
    → IsWithin r.budget
    → visible_tools e ≡ []
    → lookup e.server_id (register_backend now e r).backends ≡ some (record e { tools = [] })
hidden-loses_tools now e r h hidden =
    (register_backend_lem now e r h).0 ∙ truncate_zero _ e (omega (arith, ap length hidden))

keep-take_none :
    (p : ToolDefinition → Bool) (hidden shown : List ToolDefinition) (n : ℕ)
    → keep p hidden ≡ []
    → n ≤ length hidden
    → keep p (take n (hidden ++ shown)) ≡ []
keep-take_none p hidden shown zero h k = refl
keep-take_none p [] shown (suc n) h k = absurd (omega arith)
keep-take_none p (t ∷ hidden) shown (suc n) h k = ground (arith, keep-take_none p hidden shown n)

visible_tools-truncate_none :
    (e : BackendEntry) (allowed : List String) (hidden shown : List ToolDefinition) (n : ℕ)
    → e.unhealthy ≡ false
    → e.tool_visibility ≡ curated allowed
    → e.tools ≡ hidden ++ shown
    → keep (λ t. contains allowed t.name) hidden ≡ []
    → n ≤ length hidden
    → visible_tools (truncate n e) ≡ []
unfolding visible_tools filter
visible_tools-truncate_none e allowed hidden shown n well curation split none_hidden few =
    rw (well, curation, split)
      (keep-take_none (λ t. contains allowed t.name) hidden shown n none_hidden few)

-- A curated backend whose listed tools stand behind at least as many others shows none of them
-- once it is registered, however much of the budget is free.
pub curated-loses_tools :
    (now : ℕ) (e : BackendEntry) (r : Registry) (allowed : List String)
    (hidden shown : List ToolDefinition)
    → IsWithin r.budget
    → e.unhealthy ≡ false
    → e.tool_visibility ≡ curated allowed
    → e.tools ≡ hidden ++ shown
    → keep (λ t. contains allowed t.name) hidden ≡ []
    → length (visible_tools e) ≤ length hidden
    → (b : BackendEntry) × (lookup e.server_id (register_backend now e r).backends ≡ some b)
      × (visible_tools b ≡ [])
curated-loses_tools now e r allowed hidden shown h well curation split none_hidden few =
    let slots = min (length (visible_tools e)) (backend_tool_budget - r.budget.used) in
    (
      truncate slots e,
      (register_backend_lem now e r h).0,
      visible_tools-truncate_none e allowed hidden shown slots well curation split none_hidden
          (omega (arith, few)),
    )

-- The same entry, registered `k` times.
unfoldable pub refresh : ℕ → BackendEntry → Registry → Registry
refresh zero e r = r
refresh (suc k) e r = register_backend 0 e (refresh k e r)

refresh-used :
    (k : ℕ) (e : BackendEntry) (r : Registry)
    → IsWithin r.budget
    → (refresh k e r).budget.used
      ≡ min backend_tool_budget (r.budget.used + k * length (visible_tools e))
unfolding refresh
refresh-used zero e r h = omega (arith, h)
refresh-used (suc k) e r h =
    let ih = refresh-used k e r h in
    omega (arith, ih, (register_backend_lem 0 e (refresh k e r) (omega (arith, ih))).1)

-- A refresh charges the tools of a backend again: once `k` refreshes have used the budget up,
-- the next one leaves the backend without a tool.
pub refresh-exhausts :
    (k : ℕ) (e : BackendEntry) (r : Registry)
    → IsWithin r.budget
    → backend_tool_budget ≤ k * length (visible_tools e)
    → lookup e.server_id (refresh (suc k) e r).backends ≡ some (record e { tools = [] })
unfolding refresh
refresh-exhausts k e r h enough =
    let ih = refresh-used k e r h in
    (register_backend_lem 0 e (refresh k e r) (omega (arith, ih))).0
    ∙ truncate_zero _ e (omega (arith, ih))
