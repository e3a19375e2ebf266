-- ===== src/Aggregator/Budget.antt =====
-- `ToolBudget` of crates/scenery-mcp/src/aggregator.rs.
use vectorhawkd.Base.{ℕ, ◌+◌, ◌-◌, String, Bool, List, [], ◌∷◌, ◌++◌, leb, contains, if◌then◌else◌}

abbrev pub tool_budget_total : ℕ
tool_budget_total = 100

abbrev pub reserved_slots : ℕ
reserved_slots = 20

abbrev pub backend_tool_budget : ℕ
backend_tool_budget = tool_budget_total - reserved_slots

-- `used` counts tools that are in memory, so a `usize` holds it.
pub record ToolBudget : Type 0 where
  pub used : ℕ
  pub truncated_servers : List String

abbrev pub new : ToolBudget
new = record { used = 0; truncated_servers = [] }

-- `saturating_sub`
unfoldable pub remaining : ToolBudget → ℕ
remaining b = backend_tool_budget - b.used

unfoldable pub has_room_for : ToolBudget → ℕ → Bool
has_room_for b n = leb (b.used + n) backend_tool_budget

unfoldable pub consume : ToolBudget → ℕ → ToolBudget
consume b n = record b { used = b.used + n }

unfoldable pub record_truncation : ToolBudget → String → ToolBudget
record_truncation b server_id =
    if contains b.truncated_servers server_id
    then b
    else record b { truncated_servers = b.truncated_servers ++ server_id ∷ [] }

unfoldable pub reset : ToolBudget → ToolBudget
reset b = record { used = 0; truncated_servers = [] }
