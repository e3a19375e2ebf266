-- ===== src/Aggregator/Registry.antt =====
-- `BackendRegistry` of crates/scenery-mcp/src/aggregator.rs: registration, the surfaced tools and
-- the operations on single backends. Times are numbers given by the caller.
pub mod Grants
pub mod Bounds
pub mod Surface
pub mod Order
pub mod Place
pub mod Priority
pub mod Defects
use Prim.Native.String
use Prim.Native.String.{compare}
use Prim.Native.Nat.{Ordering}
use vectorhawkd.Base.{
  ℕ, ◌<◌, String, Bool, true, false, Option, none, some, List, [], ◌∷◌, ◌++◌, map, leb, ltb,
  contains, take, keep, length, Dict, lookup, insert, remove, adjust, values, if◌then◌else◌,
}
use vectorhawkd.Base.Json.{Json}
use vectorhawkd.Aggregator.Names.{namespace_tool}
use vectorhawkd.Aggregator.Budget
use vectorhawkd.Aggregator.Budget.{
  ToolBudget, remaining, has_room_for, consume, record_truncation, reset,
}
use vectorhawkd.Aggregator.Backend.{
  ToolDefinition, BackendEntry, visible_tools, record_success, record_error,
}

pub record Registry : Type 0 where
  pub backends : Dict BackendEntry
  pub budget : ToolBudget
  pub last_synced : Option ℕ

abbrev pub new : Registry
new = record { backends = []; budget = Budget.new; last_synced = none }

-- The block that both registrations share: the budget after a server with `tool_count` visible
-- tools, and the slots granted to it.
unfoldable pub allot : ToolBudget → String → ℕ → ToolBudget × ℕ
unfolding has_room_for consume remaining record_truncation
allot budget server_id tool_count =
    if has_room_for budget tool_count
    then (consume budget tool_count, tool_count)
    else let noted = if ltb 0 tool_count then record_truncation budget server_id else budget in
      (consume noted (remaining budget), remaining budget)

-- `entry.tools.truncate(budget_slots)`
abbrev pub truncate : ℕ → BackendEntry → BackendEntry
truncate slots e = record e { tools = take slots e.tools }

-- One entry, as both registrations load it.
unfoldable pub load : ToolBudget × Dict BackendEntry → BackendEntry → ToolBudget × Dict BackendEntry
load (budget, backends) e =
    let (budget', slots) = allot budget e.server_id (length (visible_tools e)) in
    (budget', insert e.server_id (truncate slots e) backends)

unfoldable pub register_backend : ℕ → BackendEntry → Registry → Registry
unfolding load
register_backend now e r =
    let (budget, backends) = load (r.budget, r.backends) e in
    record { backends = backends; budget = budget; last_synced = some now }

-- `sort_by_key(|e| Reverse(e.priority))`, the stable sort of the standard library.
unfoldable pub insert_by_priority : BackendEntry → List BackendEntry → List BackendEntry
insert_by_priority e [] = e ∷ []
insert_by_priority e (x ∷ xs) =
    if leb x.priority e.priority then e ∷ (x ∷ xs) else x ∷ insert_by_priority e xs

unfoldable pub sort_by_priority : List BackendEntry → List BackendEntry
unfolding insert_by_priority
sort_by_priority [] = []
sort_by_priority (e ∷ es) = insert_by_priority e (sort_by_priority es)

unfoldable pub load_all :
    ToolBudget × Dict BackendEntry → List BackendEntry → ToolBudget × Dict BackendEntry
unfolding load
load_all loaded [] = loaded
load_all loaded (e ∷ es) = load_all (load loaded e) es

unfoldable pub register_backends_with_priority : ℕ → List BackendEntry → Registry → Registry
unfolding sort_by_priority load_all reset
register_backends_with_priority now entries r =
    let (budget, backends) = load_all (reset r.budget, []) (sort_by_priority entries) in
    record { backends = backends; budget = budget; last_synced = some now }

-- A surfaced tool, the fields of its JSON object.
pub record Surfaced : Type 0 where
  pub name : String
  pub description : Option String
  pub input_schema : Option Json

abbrev labelled : String → Option String → Option String
labelled backend none = none
labelled backend (some text) = some (String.◌++◌ "[" (String.◌++◌ backend (String.◌++◌ "] " text)))

unfoldable pub surface_tool : BackendEntry → ToolDefinition → Surfaced
unfolding namespace_tool
surface_tool b tool = record {
  name = namespace_tool b.server_id tool.name;
  description = labelled b.name tool.description;
  input_schema = tool.input_schema;
}

-- What one backend adds to the surface.
unfoldable pub surface_backend : List String → BackendEntry → List Surfaced
unfolding surface_tool visible_tools
surface_backend excluded b =
    if b.unhealthy
    then []
    else if contains excluded b.server_id
    then []
    else map (surface_tool b) (visible_tools b)

unfoldable pub surface : List String → List BackendEntry → List Surfaced
unfolding surface_backend
surface excluded [] = []
surface excluded (b ∷ bs) = surface_backend excluded b ++ surface excluded bs

unfoldable pub all_tools_excluding : Registry → List String → List Surfaced
unfolding surface
all_tools_excluding r excluded = surface excluded (values r.backends)

unfoldable pub all_tools : Registry → List Surfaced
unfolding all_tools_excluding
all_tools r = all_tools_excluding r []

-- The registry's part; that the children are killed is the processes' part.
unfoldable pub shutdown : Registry → Registry
unfolding reset
shutdown r = record r { backends = []; budget = reset r.budget }

unfoldable pub remove_backend : String → Registry → Registry × Bool
remove_backend server_id r = (
  record r { backends = remove server_id r.backends },
  elim (lookup server_id r.backends) [ none ↦ false | some _ ↦ true ],
)

abbrev pub heal : BackendEntry → BackendEntry
heal b = if b.unhealthy then record b { consecutive_errors = 0; unhealthy = false } else b

unfoldable pub mark_healthy : String → Registry → Registry
mark_healthy server_id r = record r { backends = adjust server_id heal r.backends }

-- The update of the health state that ends a dispatch.
unfoldable pub settle : String → Bool → Registry → Registry
unfolding record_success record_error
settle server_id succeeded r = record r {
  backends =
      adjust server_id (λ b. if succeeded then record_success b else (record_error b).0) r.backends;
}

abbrev pub tool_names : String → Option BackendEntry → List String
tool_names server_id none = []
tool_names server_id (some b) = map (λ t. namespace_tool server_id t.name) b.tools

unfoldable pub backend_tools : Registry → String → List String
backend_tools r server_id = tool_names server_id (lookup server_id r.backends)

unfoldable pub truncated_backends : Registry → List String
truncated_backends r = r.budget.truncated_servers

unfoldable pub unhealthy_backends : Registry → List String
unhealthy_backends r = map (λ b. b.server_id) (keep (λ b. b.unhealthy) (values r.backends))
