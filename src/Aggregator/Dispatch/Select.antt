-- ===== src/Aggregator/Dispatch/Select.antt =====
-- Every surfaced tool is found again by a dispatch of its name.
use Prim.Native.String.{String}
use vectorhawkd.Base.{
  ◌≡◌, ◌≢◌, refl, ap, ◌∙◌, Bool, true, false, some, List, [], ◌∷◌, map, arith, ◌==◌, eq_refl, any,
  contains, All, All-append, All-imp, All-keep, All-lookup_self, Dict, lookup, values, ok,
  Bool-cases, ◌⊎◌, inl, inr,
}
use vectorhawkd.Aggregator.Names.{namespace_tool}
use vectorhawkd.Aggregator.Names.RoundTrip.{IsSeparable, parse_tool_name-namespace_tool}
use vectorhawkd.Aggregator.Backend.{
  ToolDefinition, ToolVisibility, all, curated, on_demand, BackendEntry, Tokens, filter,
  visible_tools,
}
use vectorhawkd.Aggregator.Registry.{
  Registry, Surfaced, surface_tool, surface_backend, surface, all_tools_excluding,
}
use vectorhawkd.Aggregator.Registry.Bounds.{IsFiled, Reach, Reach-IsValid}
use vectorhawkd.Aggregator.Dispatch.{target_of, select}

-- A backend whose names can be told apart again: its id, and the names of its tools.
abbrev pub IsNamed : String × BackendEntry → Type 0
IsNamed p = IsSeparable p.1.server_id × (p.1.server_id ≢ "") × All (λ t. t.name ≢ "") p.1.tools

-- The tool is listed by the backend.
abbrev has_tool : List ToolDefinition → String → Bool
has_tool tools name = any (λ t. t.name == name) tools

abbrev pub IsListed : ToolDefinition → List ToolDefinition → Type 0
IsListed t [] = ⊥
IsListed t (u ∷ us) = (t ≡ u) ⊎ IsListed t us

-- A surfaced tool is one that a healthy backend of the registry lists, and it is dispatched to
-- that backend under the tool's own name.
abbrev pub IsDispatched : Tokens → Registry → Surfaced → Type 0
IsDispatched tokens r s =
    (b : BackendEntry) × (t : ToolDefinition) × (lookup b.server_id r.backends ≡ some b)
    × (b.unhealthy ≡ false)
    × IsListed t b.tools
    × (s.name ≡ namespace_tool b.server_id t.name)
    × (select tokens r s.name
        ≡ some (b.server_id, t.name, ok (target_of tokens s.name b.transport)))

All-IsListed : (tools : List ToolDefinition) → All (λ t. IsListed t tools) tools
All-IsListed [] = tt
All-IsListed (t ∷ ts) = (inl refl, All-imp (λ u h. inr h) ts (All-IsListed ts))

IsListed-has_tool :
    (t : ToolDefinition) (tools : List ToolDefinition)
    → IsListed t tools
    → has_tool tools t.name ≡ true
IsListed-has_tool t [] h = absurd h
IsListed-has_tool t (u ∷ us) (inl same) = rw same (simp eq_refl)
IsListed-has_tool t (u ∷ us) (inr later) = ground (arith, IsListed-has_tool t us later)

All-filter {ℓ} :
    (P : ToolDefinition → Type ℓ) (v : ToolVisibility) (tools : List ToolDefinition)
    → All P tools
    → All P (filter v tools)
unfolding filter
All-filter P all tools h = h
All-filter P (curated allowed) tools h = All-keep P _ tools h
All-filter P on_demand tools h = tt

All-zip {ℓ} :
    {A : Type ℓ} (P Q : A → Type ℓ) (xs : List A) → All P xs → All Q xs → All (λ x. P x × Q x) xs
All-zip P Q [] p q = tt
All-zip P Q (x ∷ xs) (p, ps) (q, qs) = ((p, q), All-zip P Q xs ps qs)

All-map {ℓ} :
    {A B : Type ℓ} (P : B → Type ℓ) (f : A → B) (xs : List A)
    → All (λ x. P (f x)) xs
    → All P (map f xs)
All-map P f [] h = tt
All-map P f (x ∷ xs) (p, h) = (p, All-map P f xs h)

module _ (tokens : Tokens) (r : Registry) where
  tool-IsDispatched :
      (b : BackendEntry) (t : ToolDefinition)
      → IsSeparable b.server_id
      → b.server_id ≢ ""
      → lookup b.server_id r.backends ≡ some b
      → b.unhealthy ≡ false
      → IsListed t b.tools
      → t.name ≢ ""
      → IsDispatched tokens r (surface_tool b t)
  unfolding select surface_tool
  tool-IsDispatched b t sep id found well listed name =
      let known = IsListed-has_tool t b.tools listed in
      (
        b,
        t,
        found,
        well,
        listed,
        refl,
        rw (parse_tool_name-namespace_tool b.server_id t.name sep id name)
            (rw found (rw (well, known) refl)),
      )

  backend-IsDispatched :
      (excluded : List String) (b : BackendEntry)
      → IsSeparable b.server_id
      → b.server_id ≢ ""
      → All (λ t. t.name ≢ "") b.tools
      → lookup b.server_id r.backends ≡ some b
      → All (IsDispatched tokens r) (surface_backend excluded b)
  unfolding surface_backend visible_tools
  backend-IsDispatched excluded b sep id names found = elim (Bool-cases b.unhealthy) [
    | inl ill ↦ rw ill tt
    | inr well ↦ elim (Bool-cases (contains excluded b.server_id)) [
      | inl out ↦ rw (well, out) tt
      | inr kept ↦
          rw (well, kept)
            (All-map (IsDispatched tokens r) (surface_tool b) (filter b.tool_visibility b.tools) (
              All-imp (λ t h. tool-IsDispatched b t sep id found well h.0 h.1)
                (filter b.tool_visibility b.tools)
                (All-filter _ b.tool_visibility b.tools
                  (All-zip _ _ b.tools (All-IsListed b.tools) names))))
    ]
  ]

  surface-IsDispatched :
      (excluded : List String) (m : Dict BackendEntry)
      → All (λ p. lookup p.0 r.backends ≡ some p.1) m
      → All IsFiled m
      → All IsNamed m
      → All (IsDispatched tokens r) (surface excluded (values m))
  unfolding surface
  surface-IsDispatched excluded [] l f n = tt
  surface-IsDispatched excluded ((k, b) ∷ m) (l, ls) (f, fs) (n, ns) =
      All-append (IsDispatched tokens r) (surface_backend excluded b) (surface excluded (values m))
        (backend-IsDispatched excluded b n.0 n.1 n.2 (ap (λ id. lookup id r.backends) f.0 ∙ l))
        (surface-IsDispatched excluded m ls fs ns)

  -- In a reachable registry whose ids are separable and whose names are not empty, each surfaced
  -- tool is one that a healthy backend of the registry lists, named by the backend's id and its
  -- own name, and it is dispatched to that backend under its own name.
  pub all_tools_excluding-IsDispatched :
      (excluded : List String)
      → Reach r
      → All IsNamed r.backends
      → All (IsDispatched tokens r) (all_tools_excluding r excluded)
  unfolding all_tools_excluding
  all_tools_excluding-IsDispatched excluded reach named =
      let valid = Reach-IsValid reach in
      surface-IsDispatched excluded r.backends (All-lookup_self r.backends valid.unique) valid.filed
        named
