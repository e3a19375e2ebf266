-- ===== src/Ownership/Keys.antt =====
-- The keys of `mcpServers` that are not Scenery's.
use vectorhawkd.Base.{String, ◌≡◌, not, some, ◌==◌, contains, contains-keep, ◌&&◌}
use vectorhawkd.Base.Json.{Json, Fields, get, as_object, keys}
use vectorhawkd.Ownership.{scenery_mcp_key, is_scenery_mcp_key, native_mcp_keys_at}

-- In a file whose `mcpServers` is an object, the native keys are the keys of that object but
-- Scenery's own.
pub native_mcp_keys_at_lem :
    (root servers : Json) (known : Fields) (key : String)
    → get "mcpServers" root ≡ some servers
    → as_object servers ≡ some known
    → contains (native_mcp_keys_at (some root)) key
      ≡ (contains (keys known) key && not (key == scenery_mcp_key))
unfolding native_mcp_keys_at is_scenery_mcp_key
native_mcp_keys_at_lem root servers known key h k =
    rw (h, k) (contains-keep (λ k. not (is_scenery_mcp_key k)) key (keys known))
