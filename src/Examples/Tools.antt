-- ===== src/Examples/Tools.antt =====
-- Examples on the aggregator of crates/scenery-mcp/src/aggregator.rs.
use Prim.Native.Char.{Char, code}
use Prim.Native.Nat.{min}
use vectorhawkd.Base.{
  ℕ, suc, ◌+◌, ◌-◌, ◌^◌, ◌≤◌, ◌<◌, ◌≡◌, ◌≢◌, refl, String, eq_iff, ◌==◌, Bool, true, false, Option,
  none, some, List, [], ◌∷◌, ◌++◌, arith, length, All, keep, contains, lookup, Dict, leb, ltb, eqb,
  if◌then◌else◌, Result, ok, err, is_ok,
}
use vectorhawkd.Base.Json.{Json}
use vectorhawkd.Aggregator.Names.{namespace_tool, parse_tool_name, is_underscore, split_separator}
use vectorhawkd.Aggregator.Names.RoundTrip.{
  parse_tool_name-namespace_tool, namespace_tool-injective,
}
use vectorhawkd.Aggregator.Budget.{backend_tool_budget}
use vectorhawkd.Aggregator.Backend
use vectorhawkd.Aggregator.Backend.{
  ToolDefinition, BackendEntry, BackendTransport, ToolVisibility, Tokens, visible_tools,
  record_success, record_error, unhealthy_threshold,
}
use vectorhawkd.Aggregator.Registry.{
  Registry, new, register_backend, register_backends_with_priority, truncate, all_tools_excluding,
  load, allot,
}
use vectorhawkd.Aggregator.Registry.Bounds.{IsValid, Reach, start, next, registered, Reach-IsValid}
use vectorhawkd.Aggregator.Registry.Surface.{length-all_tools_excluding-le}
use vectorhawkd.Aggregator.Registry.Order.{demand}
use vectorhawkd.Aggregator.Registry.Priority.{register_backends_with_priority_lem}
use vectorhawkd.Aggregator.Registry.Defects.{hidden-loses_tools, refresh, refresh-exhausts}
use vectorhawkd.Aggregator.Dispatch.{
  Outside, select, perform, dispatch, backend_unhealthy, unreachable, http,
}
use vectorhawkd.Aggregator.Dispatch.Select.{IsDispatched, all_tools_excluding-IsDispatched}
use vectorhawkd.Aggregator.Dispatch.Sound.{failure-closes}

abbrev tool : String → ToolDefinition
tool name = record { name = name; description = some "a tool"; input_schema = none }

-- A backend at the address of nobody, with `errors` behind it.
abbrev backend : String → ToolVisibility → List ToolDefinition → ℕ → BackendEntry
backend id visibility tools errors = record {
  server_id = id;
  name = id;
  transport = BackendTransport.http "http://localhost" none none;
  tools = tools;
  tool_visibility = visibility;
  priority = 1;
  consecutive_errors = errors;
  unhealthy = false;
}

abbrev two_tools : List ToolDefinition
two_tools = tool "read" ∷ (tool "write" ∷ [])

abbrev files : BackendEntry
files = backend "files" ToolVisibility.all two_tools 0

abbrev notes : BackendEntry
notes = record (backend "notes" ToolVisibility.all two_tools 0) { priority = 7 }

abbrev with_files : Registry
with_files = register_backend 5 files new

files-Reach : Reach with_files
files-Reach = next start (registered 5 files new (λ h. absurd (omega (arith, h))))

length-all_tools_excluding-le_example :
    length (all_tools_excluding with_files []) ≤ backend_tool_budget
length-all_tools_excluding-le_example = length-all_tools_excluding-le with_files [] files-Reach

Reach-IsValid_example : IsValid with_files
Reach-IsValid_example = Reach-IsValid files-Reach

abbrev no_tokens : Tokens
no_tokens handle = none

all_tools_excluding-IsDispatched_example :
    All (IsDispatched no_tokens with_files) (all_tools_excluding with_files [])
unfolding register_backend load allot split_separator vectorhawkd.Base.insert visible_tools
    Backend.filter
all_tools_excluding-IsDispatched_example =
    all_tools_excluding-IsDispatched no_tokens with_files [] files-Reach
      ((refl, (λ e. cc), (λ e. cc, (λ e. cc, tt))), tt)

notes_are_other : ◌≢◌ {A = String} "notes" "files"
notes_are_other e = let h : "notes" == "files" ≡ true = (eq_iff "notes" "files").1 e in cc (h)

register_backends_with_priority_lem_example :
    lookup "files" (register_backends_with_priority 5 (files ∷ (notes ∷ [])) new).backends
    ≡ some (
        truncate
          (min (length (visible_tools files)) (
            backend_tool_budget
            - (demand (keep (λ x. leb files.priority x.priority) [])
                + demand (keep (λ x. ltb files.priority x.priority) (notes ∷ [])))))
          files)
register_backends_with_priority_lem_example =
    register_backends_with_priority_lem 5 new [] (notes ∷ []) files tt (notes_are_other, tt)

abbrev hidden_files : BackendEntry
hidden_files = backend "files" ToolVisibility.on_demand two_tools 0

hidden-loses_tools_example :
    lookup "files" (register_backend 5 hidden_files new).backends
    ≡ some (record hidden_files { tools = [] })
unfolding visible_tools Backend.filter
hidden-loses_tools_example = hidden-loses_tools 5 hidden_files new (omega arith) refl

refresh-exhausts_example :
    lookup "files" (refresh 41 files new).backends ≡ some (record files { tools = [] })
unfolding visible_tools Backend.filter
refresh-exhausts_example = refresh-exhausts 40 files new (omega arith) (omega arith)

-- A network on which nothing answers.
abbrev offline : Outside
offline = record {
  display = λ value. "";
  send = λ url auth_token tool args. none;
  call_stdio = λ process command command_args env tool args. err unreachable;
}

abbrev failing_files : BackendEntry
failing_files = backend "files" ToolVisibility.all two_tools 2

abbrev with_failing : Registry
with_failing = register_backend 5 failing_files new

failure-closes_example :
    select no_tokens
      (dispatch offline no_tokens (λ s. s) "files__read" Json.null with_failing).1
      "files__write"
    ≡ some ("files", "write", err (backend_unhealthy "files"))
unfolding select register_backend load allot parse_tool_name perform lookup split_separator
    vectorhawkd.Base.insert visible_tools Backend.filter
failure-closes_example =
    failure-closes offline no_tokens "files__read" Json.null with_failing "files" "read"
      (http "http://localhost" none) failing_files refl refl (omega arith) (omega arith) refl
      "files__write" "write" refl

parse_tool_name-namespace_tool_example :
    parse_tool_name (namespace_tool "files" "read__all") ≡ some ("files", "read__all")
unfolding split_separator
parse_tool_name-namespace_tool_example =
    parse_tool_name-namespace_tool "files" "read__all" refl (λ e. cc) (λ e. cc)

abbrev files_id : String
files_id = "files"

abbrev read_name : String
read_name = "read"

abbrev surfaced_name : String
surfaced_name = "files__read"

namespace_tool-injective_example : (files_id ≡ "files") × (read_name ≡ "read")
unfolding split_separator
namespace_tool-injective_example =
    namespace_tool-injective "files" "files" "read" "read" refl refl refl

-- Letters of the English alphabet.
abbrev is_small_letter : Char → Bool
is_small_letter c = if leb b'a' (code c) then leb (code c) b'z' else false

letter-plain : (c : Char) → is_underscore c ≡ true → is_small_letter c ≡ false
letter-plain c h = ground (arith, h)
