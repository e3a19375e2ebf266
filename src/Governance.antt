-- ===== src/Governance.antt =====
-- crates/scenery-core/src/mcp_governance.rs: the request of an install and the wait for it, and
-- the cache of the approved servers. The network, the clock and the database are answers: one for
-- each round of the loop. Times are milliseconds for the wait and seconds for the cache.
pub mod Wait
use vectorhawkd.Base.{
  ℕ, zero, suc, ◌+◌, ◌*◌, ◌%◌, String, Bool, true, false, not, ◌&&◌, ◌||◌, Option, none, some, List,
  [], ◌∷◌, ◌==◌, eqb, leb, ltb, if◌then◌else◌, Result, ok, err, ◌>>=◌,
}

pub record PollTiming : Type 0 where
  pub timeout : ℕ
  pub interval : ℕ

abbrev pub default_timing : PollTiming
default_timing = record { timeout = 120000; interval = 500 }

abbrev pub remote_check_every_n_ticks : ℕ
remote_check_every_n_ticks = 10

pub data InstallError : Type 0 where
  unreachable session_expired timed_out encountered_error : InstallError
  request_failed : (status : ℕ) → String → InstallError
  database failed_remotely : String → InstallError

-- The answer to the request: none at all, or its status, its text and the id of the installation,
-- if the body has one.
pub record Response : Type 0 where
  pub status : ℕ
  pub text : String
  pub installation_id : Option String

abbrev is_success : ℕ → Bool
is_success status = leb 200 status && ltb status 300

unfoldable pub requested : Option Response → Result InstallError (Option String)
requested none = err unreachable
requested (some response) =
    if eqb (response.status) 401
    then err session_expired
    else if not (is_success (response.status))
    then err (request_failed (response.status) (response.text))
    else ok (response.installation_id)

pub record InstallationMineEntry : Type 0 where
  pub installation_id : String
  pub state : String
  pub error_message : Option String

abbrev message_of : Option String → String
message_of none = "install failed"
message_of (some message) = message

unfoldable pub first_error : String → List InstallationMineEntry → Option String
first_error id [] = none
first_error id (e ∷ entries) =
    if (e.installation_id == id) && (e.state == "error")
    then some (message_of (e.error_message))
    else first_error id entries

-- `none` is a call that failed or could not be read.
unfoldable pub check_remote_installation_error :
    String → Option (List InstallationMineEntry) → Option String
unfolding first_error
check_remote_installation_error id none = none
check_remote_installation_error id (some entries) = first_error id entries

-- What the loop finds in its round `tick`: the time since its start, the status and version of
-- the skill's row, and the installations that the registry lists.
pub record Outside : Type 0 where
  pub clock : (tick : ℕ) → ℕ
  pub row : (tick : ℕ) → Result String (Option (String × String))
  pub mine : (tick : ℕ) → Option (List InstallationMineEntry)

pub data Round : Type 0 where
  finished : Result InstallError String → Round
  again : Round

abbrev pub or_again : Option String → Round
or_again none = again
or_again (some message) = finished (err (failed_remotely message))

abbrev pub ask_remote : Outside → Option String → ℕ → Round
ask_remote o none tick = again
ask_remote o (some id) tick =
    if eqb (tick % remote_check_every_n_ticks) 0
    then or_again (check_remote_installation_error id (o.mine tick))
    else again

abbrev pub on_row : Outside → Option String → ℕ → Result String (Option (String × String)) → Round
on_row o id tick (err e) = finished (err (database e))
on_row o id tick (ok none) = ask_remote o id tick
on_row o id tick (ok (some (status, version))) =
    if status == "active"
    then finished (ok version)
    else if status == "error"
    then finished (err encountered_error)
    else ask_remote o id tick

-- One round of the loop, up to the sleep.
unfoldable pub round : PollTiming → Outside → Option String → ℕ → Round
unfolding check_remote_installation_error
round poll o id tick =
    if leb (poll.timeout) (o.clock tick)
    then finished (err timed_out)
    else on_row o id tick (o.row tick)

-- The loop from a round on; `none` means that the fuel ran out.
unfoldable pub wait :
    PollTiming → Outside → Option String → (fuel tick : ℕ) → Option (Result InstallError String)
wait poll o id zero tick = none
wait poll o id (suc fuel) tick =
    let rest = wait poll o id fuel (suc tick) in
    elim (round poll o id tick) [ finished result ↦ some result | again ↦ rest ]

-- Each round but the last takes a millisecond at least, so the timeout bounds their number.
unfoldable pub install_via_desired_state_with_timing :
    PollTiming → Outside → Option Response → Option (Result InstallError String)
unfolding requested wait
install_via_desired_state_with_timing poll o response = elim (requested response) [
  | err e ↦ some (err e)
  | ok id ↦ wait poll o id (suc (poll.timeout)) 0
]

-- The row of the cache: the text of the answer and the time at which it was fetched.
abbrev pub CacheRow : Type 0
CacheRow = String × ℕ

abbrev pub grace_seconds : ℕ
grace_seconds = 7 * 86400

module _ {R : Type 0} (to_json : R → String) (from_json : String → Option R) where
  unfoldable pub cache_mcp_config : (now : ℕ) → R → Option CacheRow → Option CacheRow
  cache_mcp_config now response old = some (to_json response, now)

  abbrev or_bad_cache : Option R → Result String (Option R)
  or_bad_cache none = err "failed to deserialize cached MCP config"
  or_bad_cache (some response) = ok (some response)

  unfoldable pub load_cached_mcp_config : (now : ℕ) → Option CacheRow → Result String (Option R)
  load_cached_mcp_config now none = ok none
  load_cached_mcp_config now (some (json, fetched_at)) =
      if ltb (fetched_at + grace_seconds) now then ok none else or_bad_cache (from_json json)
