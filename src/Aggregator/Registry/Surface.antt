-- ===== src/Aggregator/Registry/Surface.antt =====
-- The surfaced tools stay within the budget.
use vectorhawkd.Base.{
  suc, ◌≤◌, ◌≡◌, refl, ap, String, List, [], ◌∷◌, map, arith, length, length-append, weight, Dict,
  values,
}
use vectorhawkd.Aggregator.Budget.{backend_tool_budget}
use vectorhawkd.Aggregator.Backend.{BackendEntry, filter}
use vectorhawkd.Aggregator.Backend.Health.{length-filter-le}
use vectorhawkd.Aggregator.Registry.{
  Registry, surface_tool, surface_backend, surface, all_tools_excluding,
}
use vectorhawkd.Aggregator.Registry.Bounds.{tool_count, Reach, Reach-IsValid}

length-map {ℓ κ} :
    {A : Type ℓ} {B : Type κ} (f : A → B) (xs : List A) → length (map f xs) ≡ length xs
length-map f [] = refl
length-map f (x ∷ xs) = ap suc (length-map f xs)

length-surface_backend-le :
    (excluded : List String) (b : BackendEntry) → length (surface_backend excluded b) ≤ tool_count b
unfolding surface_backend
length-surface_backend-le excluded b = ground (
  arith,
  length-map (surface_tool b) (filter b.tool_visibility b.tools),
  length-filter-le b.tool_visibility b.tools,
)

length-surface-le :
    (excluded : List String) (m : Dict BackendEntry)
    → length (surface excluded (values m)) ≤ weight tool_count m
unfolding surface
length-surface-le excluded [] = omega arith
length-surface-le excluded ((k, b) ∷ m) = omega (
  arith,
  length-append (surface_backend excluded b) (surface excluded (values m)),
  length-surface_backend-le excluded b,
  length-surface-le excluded m,
)

-- In a registry reached by registrations, reloads, removals, recoveries and the ends of
-- dispatches, where no entry is registered as healthy with as many errors as the threshold, the
-- surface has at most `backend_tool_budget` tools, whatever is excluded.
pub length-all_tools_excluding-le :
    (r : Registry) (excluded : List String)
    → Reach r
    → length (all_tools_excluding r excluded) ≤ backend_tool_budget
unfolding all_tools_excluding
length-all_tools_excluding-le r excluded reach =
    let valid = Reach-IsValid reach in
    omega (arith, length-surface-le excluded r.backends, valid.fits, valid.within)
