-- ===== src/Governance/Wait.antt =====
-- The wait for an install ends, and how; and how long the cache is good for.
use vectorhawkd.Base.{
  ℕ, zero, suc, ◌+◌, ◌≤◌, ◌<◌, ◌≡◌, ◌⊎◌, refl, ◌∙◌, inl, inr, String, Option, none, some, arith,
  Bool-cases, leb, ltb, eqb, if◌then◌else◌, Result, ok,
}
use vectorhawkd.Governance.{
  PollTiming, InstallError, Response, Outside, Round, finished, again, round, wait, requested,
  install_via_desired_state_with_timing, CacheRow, grace_seconds, cache_mcp_config,
  load_cached_mcp_config,
}

Round-cases :
    (r : Round) → ((result : Result InstallError String) × (r ≡ finished result)) ⊎ (r ≡ again)
Round-cases (finished result) = inl (result, refl)
Round-cases again = inr refl

module _ (poll : PollTiming) (o : Outside) where
  -- Each round that goes on sleeps for the interval.
  abbrev pub TakesTime : Type 0
  TakesTime = (tick : ℕ) → o.clock tick + poll.interval ≤ o.clock (suc tick)

  module _ (id : Option String) where
    -- The first round from `tick` on that finishes, with what it finishes.
    abbrev pub IsFirst : ℕ → Result InstallError String → Type 0
    IsFirst tick result =
        (n : ℕ) × (tick ≤ n)
        × (round poll o id n ≡ finished result)
        × ((i : ℕ) → tick ≤ i → i < n → round poll o id i ≡ again)

    one_earlier :
        (tick : ℕ) {result : Result InstallError String}
        → round poll o id tick ≡ again
        → IsFirst (suc tick) result
        → IsFirst tick result
    one_earlier tick goes_on (n, later, last, before) = (
      n,
      omega (arith, later),
      last,
      λ i from until. elim (Bool-cases (eqb i tick)) [
        | inl same ↦ let now : i ≡ tick = ground (arith, same) in rw now goes_on
        | inr other ↦ before i (ground (arith, other, from)) until
      ],
    )

    in_time : (tick : ℕ) → round poll o id tick ≡ again → o.clock tick < poll.timeout
    unfolding round
    in_time tick goes_on = elim (Bool-cases (leb (poll.timeout) (o.clock tick))) [
      | inl late ↦ absurd (ground (arith, late))
      | inr early ↦ ground (arith, early)
    ]

    -- With more fuel than milliseconds are left, the loop ends with its first decisive round.
    wait-IsFirst :
        (fuel tick : ℕ)
        → 1 ≤ poll.interval
        → TakesTime
        → 1 ≤ fuel
        → poll.timeout < o.clock tick + fuel
        → (result : Result InstallError String) × (wait poll o id fuel tick ≡ some result)
          × IsFirst tick result
    unfolding wait
    wait-IsFirst zero tick sleeps takes some_fuel enough = absurd (omega (arith, some_fuel))
    wait-IsFirst (suc fuel) tick sleeps takes some_fuel enough =
        elim (Round-cases (round poll o id tick)) [
          | inl (result, now) ↦ (
            result,
            rw (now, wait) refl,
            (tick, omega arith, now, λ i from until. absurd (omega (arith, from, until))),
          )
          | inr goes_on ↦
              let early = in_time tick goes_on in
              let (result, ends, first) =
                wait-IsFirst fuel (suc tick) sleeps takes (omega (arith, enough, early))
                  (omega (arith, enough, takes tick, sleeps)) in
              (result, rw (goes_on, wait) ends, one_earlier tick goes_on first)
        ]

  -- An accepted request is waited for until the first round that decides: the loop ends, for any
  -- timeout, if the interval is not zero and each sleep lasts at least that long.
  pub install_via_desired_state_with_timing-ends :
      (response : Response) {id : Option String}
      → requested (some response) ≡ ok id
      → 1 ≤ poll.interval
      → TakesTime
      → (result : Result InstallError String) × (install_via_desired_state_with_timing poll o
            (some response)
          ≡ some result)
        × IsFirst id 0 result
  unfolding install_via_desired_state_with_timing
  install_via_desired_state_with_timing-ends response {id} accepted sleeps takes =
      let starts : install_via_desired_state_with_timing poll o (some response)
          ≡ wait poll o id (suc (poll.timeout)) 0 =
        rw (accepted, install_via_desired_state_with_timing) in
      let (result, ends, first) =
        wait-IsFirst id (suc (poll.timeout)) 0 sleeps takes (omega arith) (omega arith) in
      (result, starts ∙ ends, first)

-- A cached answer is given back for seven days, and then no more, if the text of an answer is
-- read back as that answer.
pub load_cached_mcp_config-cache_mcp_config :
    {R : Type 0} (to_json : R → String) (from_json : String → Option R) (fetched now : ℕ)
    (response : R) (old : Option CacheRow)
    → from_json (to_json response) ≡ some response
    → load_cached_mcp_config to_json from_json now
        (cache_mcp_config to_json from_json fetched response old)
      ≡ ok (if ltb (fetched + grace_seconds) now then none else some response)
unfolding load_cached_mcp_config cache_mcp_config
load_cached_mcp_config-cache_mcp_config to_json from_json fetched now response old reads =
    elim (Bool-cases (ltb (fetched + grace_seconds) now)) [
      | inl stale ↦ rw stale refl
      | inr fresh ↦ rw (fresh, reads) refl
    ]
