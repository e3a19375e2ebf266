-- ===== src/Examples/Guards.antt =====
-- Examples on the ownership of content, the guard of schemas and the routing of requests.
use vectorhawkd.Base.{◌≡◌, refl, ◌↔◌, ◌⊎◌, inl, true, false, none, some, [], ◌∷◌, ok, err}
use vectorhawkd.Base.Json.{Json, Fields, end, field, string, object, array, null, item, nil}
use vectorhawkd.Base.Paths.{FilePath}
use vectorhawkd.Ownership.{is_anthropic_native_in}
use vectorhawkd.Ownership.Native.{IsNative, is_anthropic_native_in_iff}
use vectorhawkd.SchemaGuard.{SchemaError, check_schema_safe}
use vectorhawkd.SchemaGuard.Walk.{IsSafe, check_schema_safe_lem}
use vectorhawkd.Sampling.{
  ModelRequest, ModelResponse, ModelSource, ModelClient, HybridModelClient, generate,
}
use vectorhawkd.Sampling.Policy.{asks_client, generate-asks_no_client}

abbrev plugins : FilePath
plugins = "/" ∷ ("home" ∷ (".claude" ∷ ("plugins" ∷ [])))

abbrev official : Fields
official =
    field "official"
      (object (
        field "source" (object (field "repo" (string "anthropics/claude-plugins-official") end))
          end))
      end

abbrev plugin_path : FilePath
plugin_path =
    "/" ∷ ("home" ∷ (".claude" ∷ ("plugins" ∷ ("marketplaces" ∷ ("official" ∷ ("lint" ∷ []))))))

is_anthropic_native_in_iff_example :
    (is_anthropic_native_in plugin_path plugins (some official) ≡ true)
    ↔ IsNative plugin_path plugins (some official)
is_anthropic_native_in_iff_example = is_anthropic_native_in_iff plugin_path plugins (some official)

abbrev servers : Fields
servers = field "scenery" null (field "github" null end)

abbrev schema : Json
schema = object (field "type" (string "array") (field "items" (array (item null nil)) end))

check_schema_safe_lem_example :
    ((check_schema_safe schema ≡ some (ok tt)) × IsSafe schema)
    ⊎ ((e : SchemaError) × (check_schema_safe schema ≡ some (err e)) × (¬ IsSafe schema))
check_schema_safe_lem_example = check_schema_safe_lem schema

abbrev question : ModelRequest
question = record {
  system_prompt = "";
  user_message = "hello";
  json_output = false;
  prefer_local = false;
  recommended_models = "llama" ∷ [];
  fallback = none;
}

abbrev answer : ModelResponse
answer = record {
  text = "hi";
  prompt_tokens = 1;
  completion_tokens = 1;
  latency_ms = 5;
  source = ModelSource.local "llama";
  cost_usd = "0";
}

abbrev llama : ModelClient
llama = record { generate = λ req. ok answer; local_model_name = some "llama" }

abbrev blocked_client : HybridModelClient
blocked_client = record { ollama = some llama; sampling = llama; block_third_party = true }

generate-asks_no_client_example : asks_client (generate blocked_client question).0 ≡ false
generate-asks_no_client_example = generate-asks_no_client blocked_client question (inl refl)
