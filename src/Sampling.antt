-- ===== src/Sampling.antt =====
-- crates/scenery-mcp/src/sampling.rs: `HybridModelClient`, which routes a request to the local
-- model or to the AI client. A model is what it answers; a run is its answer with the tiers
-- that it called, in order.
pub mod Policy
use vectorhawkd.Base.{
  ℕ, String, Bool, true, false, Option, none, some, List, [], ◌∷◌, contains, if◌then◌else◌, Result,
  ok, err,
}

pub data ModelFallback : Type 0 where
  mcp_sampling error : ModelFallback

pub record ModelRequest : Type 0 where
  pub system_prompt : String
  pub user_message : String
  pub json_output : Bool
  pub prefer_local : Bool
  pub recommended_models : List String
  pub fallback : Option ModelFallback

pub data Tier : Type 0 where
  ollama sampling : Tier

pub data ModelError : Type 0 where
  no_local_endpoint not_recommended no_backend : ModelError
  local_failed : ModelError → ModelError
  failed : String → ModelError

pub data ModelSource : Type 0 where
  local internal provider : String → ModelSource
  mcp_sampling : ModelSource

-- The cost is kept as its text.
pub record ModelResponse : Type 0 where
  pub text : String
  pub prompt_tokens : ℕ
  pub completion_tokens : ℕ
  pub latency_ms : ℕ
  pub source : ModelSource
  pub cost_usd : String

abbrev pub Run : Type 0
Run = List Tier × Result ModelError ModelResponse

pub record ModelClient : Type 0 where
  pub generate : ModelRequest → Result ModelError ModelResponse
  pub local_model_name : Option String

pub record HybridModelClient : Type 0 where
  pub ollama : Option ModelClient
  pub sampling : ModelClient
  pub block_third_party : Bool

unfoldable pub new : Option ModelClient → ModelClient → HybridModelClient
new local_model sampling_model = record {
  ollama = local_model;
  sampling = sampling_model;
  block_third_party = false;
}

unfoldable pub local_model_compatible : ModelClient → List String → Bool
local_model_compatible model [] = true
local_model_compatible model (first ∷ rest) = elim (model.local_model_name) [
  | none ↦ false
  | some name ↦ contains (first ∷ rest) name
]

abbrev blocked_by : Result ModelError ModelResponse → Result ModelError ModelResponse
blocked_by (ok answer) = ok answer
blocked_by (err e) = err (local_failed e)

-- The part of `generate` under the policy flag.
unfoldable pub generate_blocked : Option ModelClient → ModelRequest → Run
unfolding local_model_compatible
generate_blocked none req = ([], err no_local_endpoint)
generate_blocked (some model) req =
    if local_model_compatible model (req.recommended_models)
    then (Tier.ollama ∷ [], blocked_by (model.generate req))
    else ([], err not_recommended)

abbrev is_error : Option ModelFallback → Bool
is_error (some ModelFallback.error) = true
is_error _ = false

-- A failed local run, then what the fallback says.
abbrev fall_back : Result ModelError ModelResponse → Bool → Result ModelError ModelResponse → Run
fall_back (ok answer) strict delegated = (Tier.ollama ∷ [], ok answer)
fall_back (err e) true delegated = (Tier.ollama ∷ [], err e)
fall_back (err e) false delegated = (Tier.ollama ∷ Tier.sampling ∷ [], delegated)

-- The part of `generate` for a request that prefers the local model.
unfoldable pub generate_local : HybridModelClient → ModelRequest → Run
unfolding local_model_compatible
generate_local h req =
    let strict = is_error (req.fallback) in
    let delegated = (h.sampling).generate req in
    elim (h.ollama) [
      | none ↦ if strict then ([], err no_backend) else (Tier.sampling ∷ [], delegated)
      | some model ↦
          if local_model_compatible model (req.recommended_models)
          then fall_back (model.generate req) strict delegated
          else if strict
          then ([], err not_recommended)
          else (Tier.sampling ∷ [], delegated)
    ]

-- The rest of `generate`.
unfoldable pub generate_delegated : HybridModelClient → ModelRequest → Run
generate_delegated h req = elim ((h.sampling).generate req) [
  | ok answer ↦ (Tier.sampling ∷ [], ok answer)
  | err e ↦ elim (h.ollama) [
    | none ↦ (Tier.sampling ∷ [], err e)
    | some model ↦ (Tier.sampling ∷ Tier.ollama ∷ [], model.generate req)
  ]
]

unfoldable pub generate : HybridModelClient → ModelRequest → Run
unfolding generate_blocked generate_local generate_delegated
generate h req =
    if h.block_third_party
    then generate_blocked (h.ollama) req
    else if req.prefer_local
    then generate_local h req
    else generate_delegated h req
