-- ===== src/Aggregator/Backend/Health.antt =====
-- The health of a backend: consecutive errors, the threshold and recovery.
use vectorhawkd.Base.{
  ℕ, zero, suc, ◌^◌, ◌≤◌, ◌<◌, ◌≡◌, refl, true, List, arith, leb, length, length-keep-le,
}
use vectorhawkd.Aggregator.Backend.{
  ToolDefinition, ToolVisibility, all, curated, on_demand, BackendEntry, filter, record_success,
  record_error, unhealthy_threshold,
}

pub length-filter-le :
    (v : ToolVisibility) (tools : List ToolDefinition) → length (filter v tools) ≤ length tools
unfolding filter
length-filter-le all tools = omega arith
length-filter-le (curated allowed) tools = length-keep-le _ tools
length-filter-le on_demand tools = omega arith

-- A backend with as many errors as the threshold is marked unhealthy.
abbrev pub IsFlagged : BackendEntry → Type 0
IsFlagged e = unhealthy_threshold ≤ e.consecutive_errors → e.unhealthy ≡ true

pub record_error-IsFlagged : (e : BackendEntry) → IsFlagged e → IsFlagged (record_error e).0
unfolding record_error
record_error-IsFlagged e h = ground arith

pub record_success-IsFlagged : (e : BackendEntry) → IsFlagged (record_success e)
unfolding record_success
record_success-IsFlagged e h = ground arith

-- `n` failed calls in a row.
unfoldable pub fail_times : ℕ → BackendEntry → BackendEntry
fail_times zero e = e
fail_times (suc n) e = (record_error (fail_times n e)).0

fail_times-errors :
    (n : ℕ) (e : BackendEntry)
    → n < 2 ^ 32
    → (fail_times n (record_success e)).consecutive_errors ≡ n
unfolding fail_times record_error record_success
fail_times-errors zero e h = refl
fail_times-errors (suc n) e h = ground (arith, fail_times-errors n e)

-- After a success, `n` errors in a row mark a backend unhealthy exactly if `n` is at least the
-- threshold, below the wrap of the counter.
pub fail_times-unhealthy :
    (n : ℕ) (e : BackendEntry)
    → n < 2 ^ 32
    → (fail_times n (record_success e)).unhealthy ≡ leb unhealthy_threshold n
unfolding fail_times record_error record_success
fail_times-unhealthy zero e h = refl
fail_times-unhealthy (suc n) e h = ground (arith, fail_times-errors n e, fail_times-unhealthy n e)
