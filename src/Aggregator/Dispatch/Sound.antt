-- ===== src/Aggregator/Dispatch/Sound.antt =====
-- What a dispatch does to the registry, on each of its paths.
use Prim.Native.String.{String}
use vectorhawkd.Base.{
  ◌+◌, ◌^◌, ◌≤◌, ◌<◌, ◌≡◌, ◌≢◌, refl, ap, true, false, some, arith, eq_refl, lookup, lookup-adjust,
  Result, ok, err, is_ok, inl, inr, Option-cases,
}
use vectorhawkd.Base.Json.{Json}
use vectorhawkd.Aggregator.Names.{parse_tool_name}
use vectorhawkd.Aggregator.Backend.{BackendEntry, Tokens, record_error, unhealthy_threshold}
use vectorhawkd.Aggregator.Registry.{Registry, settle}
use vectorhawkd.Aggregator.Registry.Bounds.{settled, Reach, next}
use vectorhawkd.Aggregator.Dispatch.{
  DispatchError, DispatchTarget, backend_unhealthy, Outside, select, perform, dispatch,
}

module _ (out : Outside) (tokens : Tokens) (others : Registry → Registry) (name : String)
    (args : Json) where
  -- A name that is no backend's tool, or a refused one, leaves the registry as it is.
  dispatch-refused :
      (r : Registry)
      → ((id tool : String) (t : DispatchTarget) → select tokens r name ≢ some (id, tool, ok t))
      → (dispatch out tokens others name args r).1 ≡ r
  unfolding dispatch
  dispatch-refused r h = elim (Option-cases (select tokens r name)) [
    | inl e ↦ rw e refl
    | inr (found, e) ↦ refused found e
  ]
    where
      refused :
          (found : String × String × Result DispatchError DispatchTarget)
          → select tokens r name ≡ some found
          → (dispatch out tokens others name args r).1 ≡ r
      refused (id, tool, ok t) e = absurd (h id tool t e)
      refused (id, tool, err x) e = rw e refl

  -- A selected tool is called once, and the outcome is recorded on its server.
  pub dispatch-selected :
      (r : Registry) (id tool : String) (t : DispatchTarget)
      → select tokens r name ≡ some (id, tool, ok t)
      → dispatch out tokens others name args r
        ≡ (some (perform out t tool args), settle id (is_ok (perform out t tool args)) (others r))
  unfolding dispatch
  dispatch-selected r id tool t e = rw e refl

-- A registry after a failed call.
lookup-settle_error :
    (id : String) (r : Registry) (b : BackendEntry)
    → lookup id r.backends ≡ some b
    → lookup id (settle id false r).backends ≡ some (record_error b).0
unfolding settle
lookup-settle_error id r b e = rw lookup-adjust (rw (e, eq_refl id) refl)

-- A failure that reaches the threshold closes the backend: whatever tool of it is dispatched
-- next is refused as unhealthy.
pub failure-closes :
    (out : Outside) (tokens : Tokens) (name : String) (args : Json) (r : Registry)
    (id tool : String) (t : DispatchTarget) (b : BackendEntry)
    → select tokens r name ≡ some (id, tool, ok t)
    → lookup id r.backends ≡ some b
    → unhealthy_threshold ≤ b.consecutive_errors + 1
    → b.consecutive_errors + 1 < 2 ^ 32
    → is_ok (perform out t tool args) ≡ false
    → (name' tool' : String) → parse_tool_name name' ≡ some (id, tool')
    → select tokens (dispatch out tokens (λ s. s) name args r).1 name'
      ≡ some (id, tool', err (backend_unhealthy id))
unfolding select record_error
failure-closes out tokens name args r id tool t b chosen found reached low failed name' tool'
      parsed =
    let after = dispatch-selected out tokens (λ s. s) name args r id tool t chosen in
    let ill : (record_error b).0.unhealthy ≡ true = ground arith in
    rw (ap (λ p. p.1) after)
      (rw failed (rw (parsed, lookup-settle_error id r b found) (rw ill refl)))

-- A dispatch is a step of the registry's relation after whatever others did.
pub dispatch-Reach :
    (out : Outside) (tokens : Tokens) (others : Registry → Registry) (name : String) (args : Json)
    (r : Registry)
    → Reach r
    → Reach (others r)
    → Reach (dispatch out tokens others name args r).1
unfolding dispatch
dispatch-Reach out tokens others name args r before after =
    elim (Option-cases (select tokens r name)) [
      | inl e ↦ rw e before
      | inr (found, e) ↦ step found e
    ]
  where
    step :
        (found : String × String × Result DispatchError DispatchTarget)
        → select tokens r name ≡ some found
        → Reach (dispatch out tokens others name args r).1
    step (id, tool, ok t) e =
        rw e (next after (settled id (is_ok (perform out t tool args)) (others r)))
    step (id, tool, err x) e = rw e before
