-- ===== src/Aggregator/Backend.antt =====
-- `ToolDefinition`, `ToolVisibility`, `BackendTransport` and `BackendEntry` of
-- crates/scenery-mcp/src/aggregator.rs. What an `Arc` shares, a live token or a child process, is
-- a number that names a cell of a store.
pub mod Health
use vectorhawkd.Base.{
  ℕ, ◌+◌, ◌%◌, ◌^◌, String, Bool, true, false, Option, none, some, List, [], leb, contains, keep,
  Dict, if◌then◌else◌,
}
use vectorhawkd.Base.Json.{Json}

pub record ToolDefinition : Type 0 where
  pub name : String
  pub description : Option String
  pub input_schema : Option Json

pub data ToolVisibility : Type 0 where
  all : ToolVisibility
  curated : List String → ToolVisibility
  on_demand : ToolVisibility

unfoldable pub filter : ToolVisibility → List ToolDefinition → List ToolDefinition
filter all tools = tools
filter (curated allowed) tools = keep (λ t. contains allowed t.name) tools
filter on_demand tools = []

abbrev pub unhealthy_threshold : ℕ
unhealthy_threshold = 3

-- The cells of the live tokens; a poisoned lock reads as `none`.
abbrev pub Tokens : Type 0
Tokens = ℕ → Option String

abbrev pub or_else : Option String → Option String → Option String
or_else none other = other
or_else (some s) other = some s

unfoldable pub resolve_live_token : Tokens → Option ℕ → Option String → Option String
resolve_live_token tokens none static_token = static_token
resolve_live_token tokens (some handle) static_token = or_else (tokens handle) static_token

pub data BackendTransport : Type 0 where
  stub : BackendTransport
  http : (url : String) (auth_token : Option String) (token_handle : Option ℕ) → BackendTransport
  stdio :
      (command : String) (args : List String) (env : Dict String) (process : ℕ) → BackendTransport

pub record BackendEntry : Type 0 where
  pub server_id : String
  pub name : String
  pub transport : BackendTransport
  pub tools : List ToolDefinition
  pub tool_visibility : ToolVisibility
  pub priority : ℕ
  pub consecutive_errors : ℕ
  pub unhealthy : Bool

unfoldable pub visible_tools : BackendEntry → List ToolDefinition
visible_tools e = if e.unhealthy then [] else filter e.tool_visibility e.tools

unfoldable pub record_success : BackendEntry → BackendEntry
record_success e = record e { consecutive_errors = 0; unhealthy = false }

-- The `u32` counter wraps in a release build. The result says whether the threshold is reached.
unfoldable pub record_error : BackendEntry → BackendEntry × Bool
record_error e =
    let errors = (e.consecutive_errors + 1) % 2 ^ 32 in
    if leb unhealthy_threshold errors
    then (record e { consecutive_errors = errors; unhealthy = true }, true)
    else (record e { consecutive_errors = errors }, false)
