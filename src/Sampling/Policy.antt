-- ===== src/Sampling/Policy.antt =====
-- When the AI client is never asked, and what a blocked client may answer.
use vectorhawkd.Base.{
  ◌≡◌, refl, ◌⊎◌, inl, inr, Bool, true, false, ◌||◌, Option, none, some, List, [], ◌∷◌, arith,
  Result, ok, err, Bool-cases, Option-cases,
}
use vectorhawkd.Sampling.{
  ModelFallback, ModelRequest, ModelResponse, ModelError, ModelClient, HybridModelClient, Tier,
  local_model_compatible, generate_blocked, generate_local, generate, blocked_by, fall_back,
}

abbrev is_sampling : Tier → Bool
is_sampling Tier.sampling = true
is_sampling Tier.ollama = false

abbrev pub asks_client : List Tier → Bool
asks_client [] = false
asks_client (tier ∷ tiers) = is_sampling tier || asks_client tiers

generate_blocked_local :
    (model : Option ModelClient) (req : ModelRequest)
    → asks_client (generate_blocked model req).0 ≡ false
unfolding generate_blocked
generate_blocked_local none req = refl
generate_blocked_local (some model) req = ground arith

fall_back_strict :
    (first second : Result ModelError ModelResponse)
    → asks_client (fall_back first true second).0 ≡ false
fall_back_strict (ok a) second = refl
fall_back_strict (err e) second = refl

generate_local_strict :
    (h : HybridModelClient) (req : ModelRequest)
    → req.fallback ≡ some ModelFallback.error
    → asks_client (generate_local h req).0 ≡ false
unfolding generate_local
generate_local_strict h req strict = elim (Option-cases h.ollama) [
  | inl absent ↦ rw (absent, strict)
  | inr (model, found) ↦ elim (Bool-cases (local_model_compatible model req.recommended_models)) [
    | inl fits ↦ rw (found, strict, fits) (fall_back_strict _ _)
    | inr unfit ↦ rw (found, strict, unfit)
  ]
]

-- The AI client is not asked if the policy blocks third parties, nor if the request prefers the
-- local model and its fallback is an error.
pub generate-asks_no_client :
    (h : HybridModelClient) (req : ModelRequest)
    → (h.block_third_party ≡ true)
      ⊎ ((req.prefer_local ≡ true) × (req.fallback ≡ some ModelFallback.error))
    → asks_client (generate h req).0 ≡ false
unfolding generate
generate-asks_no_client h req (inl blocked) = rw blocked (generate_blocked_local h.ollama req)
generate-asks_no_client h req (inr (local, strict)) = elim (Bool-cases h.block_third_party) [
  | inl blocked ↦ rw blocked (generate_blocked_local h.ollama req)
  | inr free ↦ rw (free, local) (generate_local_strict h req strict)
]

-- What may answer where third parties are blocked.
abbrev pub IsLocalAnswer : Option ModelClient → ModelRequest → ModelResponse → Type 0
IsLocalAnswer ollama req a =
    (model : ModelClient) × (ollama ≡ some model)
    × (local_model_compatible model req.recommended_models ≡ true)
    × (model.generate req ≡ ok a)

blocked_by-ok :
    (r : Result ModelError ModelResponse) {a : ModelResponse} → blocked_by r ≡ ok a → r ≡ ok a
blocked_by-ok (ok b) e = e
blocked_by-ok (err b) e = cc

generate_blocked-answer :
    (ollama : Option ModelClient) (req : ModelRequest) (a : ModelResponse)
    → (generate_blocked ollama req).1 ≡ ok a
    → IsLocalAnswer ollama req a
unfolding generate_blocked
generate_blocked-answer none req a e = cc
generate_blocked-answer (some model) req a e =
    elim (Bool-cases (local_model_compatible model req.recommended_models)) [
      | inl fits ↦ (model, refl, fits, blocked_by-ok (model.generate req) (rw fits at e))
      | inr unfit ↦ ground arith
    ]

-- Where the policy blocks third parties, an answer is that of a configured local model which
-- the skill's list allows.
pub generate-IsLocalAnswer :
    (h : HybridModelClient) (req : ModelRequest) (a : ModelResponse)
    → h.block_third_party ≡ true
    → (generate h req).1 ≡ ok a
    → IsLocalAnswer h.ollama req a
unfolding generate
generate-IsLocalAnswer h req a blocked answered =
    generate_blocked-answer h.ollama req a (rw blocked at answered)
