-- ===== src/Aggregator/Dispatch.antt =====
-- `dispatch` of crates/scenery-mcp/src/aggregator.rs and the transports' calls. The network and the
-- child processes are parameters; the registry's lock is free while a call runs, so what others
-- do to the registry meanwhile is a function of it.
pub mod Select
pub mod Sound
use Prim.Native.String
use vectorhawkd.Base.{
  String, ℕ, Bool, true, false, ◌&&◌, Option, none, some, List, [], ◌∷◌, ◌==◌, ltb, leb, any, Dict,
  lookup, if◌then◌else◌, Result, ok, err, is_ok,
}
use vectorhawkd.Base.Json
use vectorhawkd.Base.Json.{Json}
use vectorhawkd.Aggregator.Names.{parse_tool_name}
use vectorhawkd.Aggregator.Backend.{BackendEntry, BackendTransport, Tokens, resolve_live_token}
use vectorhawkd.Aggregator.Registry.{Registry, settle}

pub data DispatchError : Type 0 where
  backend_unhealthy : (server_id : String) → DispatchError
  tool_not_found : (tool server_id : String) → DispatchError
  unreachable : DispatchError
  failed_status : ℕ → DispatchError
  unparsable : DispatchError
  rpc_error : Json → DispatchError
  spawn_failed : (command : String) → DispatchError
  process_failed : DispatchError

-- What a call needs after the lock is released.
pub data DispatchTarget : Type 0 where
  stub : (namespaced_tool : String) → DispatchTarget
  http : (url : String) (auth_token : Option String) → DispatchTarget
  stdio : (process : ℕ) (command : String) (args : List String) (env : Dict String) → DispatchTarget

unfoldable pub target_of : Tokens → String → BackendTransport → DispatchTarget
unfolding resolve_live_token
target_of tokens namespaced BackendTransport.stub = stub namespaced
target_of tokens namespaced (BackendTransport.http url auth_token handle) =
    http url (resolve_live_token tokens handle auth_token)
target_of tokens namespaced (BackendTransport.stdio command args env process) =
    stdio process command args env

-- The checks on one backend.
unfoldable pub select_on :
    Tokens → String → (server_id tool : String) → BackendEntry → Result DispatchError DispatchTarget
unfolding target_of
select_on tokens namespaced server_id tool b =
    if b.unhealthy
    then err (backend_unhealthy server_id)
    else if any (λ t. t.name == tool) b.tools
    then ok (target_of tokens namespaced b.transport)
    else err (tool_not_found tool server_id)

abbrev select_found :
    Tokens
    → String
    → (server_id tool : String) → Option BackendEntry
    → Option (String × String × Result DispatchError DispatchTarget)
select_found tokens namespaced server_id tool none = none
select_found tokens namespaced server_id tool (some b) =
    some (server_id, tool, select_on tokens namespaced server_id tool b)

abbrev select_parsed :
    Tokens
    → Registry
    → String
    → Option (String × String)
    → Option (String × String × Result DispatchError DispatchTarget)
select_parsed tokens r namespaced none = none
select_parsed tokens r namespaced (some (server_id, tool)) =
    select_found tokens namespaced server_id tool (lookup server_id r.backends)

-- The part of `dispatch` under the lock: the server, its tool's own name, and the target or the
-- refusal. `none` leaves the name to the other layers.
unfoldable pub select :
    Tokens → Registry → String → Option (String × String × Result DispatchError DispatchTarget)
unfolding select_on
select tokens r namespaced = select_parsed tokens r namespaced (parse_tool_name namespaced)

-- An answer of an HTTP server; `body` is `none` if it is no JSON.
pub record HttpResponse : Type 0 where
  pub status : ℕ
  pub body : Option Json

abbrev or_null : Option Json → Json
or_null none = Json.null
or_null (some v) = v

abbrev rpc_result : Json → Option Json → Result DispatchError Json
rpc_result body none = ok (or_null (Json.get "result" body))
rpc_result body (some e) = err (rpc_error e)

abbrev parsed_body : Option Json → Result DispatchError Json
parsed_body none = err unparsable
parsed_body (some body) = rpc_result body (Json.get "error" body)

unfoldable pub call_http_tool : Option HttpResponse → Result DispatchError Json
call_http_tool none = err unreachable
call_http_tool (some resp) =
    if leb 200 resp.status && ltb resp.status 300
    then parsed_body resp.body
    else err (failed_status resp.status)

-- The child processes, as values of a type of their own.
module _ {P : Type 0} (is_alive : P → Bool) (spawn : String → Option P) where
  abbrev needs_spawn : Option P → Bool
  needs_spawn none = true
  needs_spawn (some p) = if is_alive p then false else true

  abbrev spawned : String → Option P → Option P × Result DispatchError (Unit {0})
  spawned command none = (none, err (spawn_failed command))
  spawned command (some p) = (some p, ok tt)

  -- The slot after the call, and whether it holds a live process.
  unfoldable pub spawn_if_needed : Option P → String → Option P × Result DispatchError (Unit {0})
  spawn_if_needed slot command =
      if needs_spawn slot then spawned command (spawn command) else (slot, ok tt)

-- What is outside: the text of a JSON value, the network, and the call on a child process.
pub record Outside : Type 0 where
  pub display : Json → String
  pub send :
      (url : String) (auth_token : Option String) (tool : String) (args : Json)
      → Option HttpResponse
  pub call_stdio :
      (process : ℕ) (command : String) (command_args : List String) (env : Dict String)
      (tool : String) (args : Json)
      → Result DispatchError Json

abbrev text_content : String → Json
text_content text =
    let part =
      Json.object
        (Json.field "type" (Json.string "text") (Json.field "text" (Json.string text) Json.end)) in
    Json.object (Json.field "content" (Json.array (Json.item part Json.nil)) Json.end)

-- The call itself, with no lock held.
unfoldable pub perform : Outside → DispatchTarget → String → Json → Result DispatchError Json
unfolding call_http_tool
perform out (stub namespaced) tool args = ok (
    text_content (
      String.◌++◌ "stub response for "
        (String.◌++◌ namespaced (String.◌++◌ ": " (out.display args)))))
perform out (http url auth_token) tool args = call_http_tool (out.send url auth_token tool args)
perform out (stdio process command command_args env) tool args =
    out.call_stdio process command command_args env tool args

-- `others` is what the other holders of the lock do between the lookup and the answer.
abbrev run_selected :
    Outside
    → (Registry → Registry)
    → Json
    → Registry
    → Option (String × String × Result DispatchError DispatchTarget)
    → Option (Result DispatchError Json) × Registry
run_selected out others args r none = (none, r)
run_selected out others args r (some (server_id, tool, err e)) = (some (err e), r)
run_selected out others args r (some (server_id, tool, ok target)) =
    let result = perform out target tool args in
    (some result, settle server_id (is_ok result) (others r))

unfoldable pub dispatch :
    Outside
    → Tokens
    → (Registry → Registry)
    → String
    → Json
    → Registry
    → Option (Result DispatchError Json) × Registry
unfolding select perform
dispatch out tokens others namespaced args r =
    run_selected out others args r (select tokens r namespaced)
