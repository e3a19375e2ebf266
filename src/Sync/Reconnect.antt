-- ===== src/Sync/Reconnect.antt =====
-- The loop of `run` in crates/scenery-daemon/src/sync/sse_client.rs, one round at a time. The
-- environment of a round is what the database, the connection and the token refresh answer.
pub mod Backoff
pub mod Streak
use Prim.Native.Nat.{min}
use vectorhawkd.Base.{
  ℕ, ◌+◌, ◌*◌, String, Bool, true, false, Option, none, some, List, [], ◌∷◌, ltb, if◌then◌else◌,
}
use vectorhawkd.Sync.Connect.{
  ConnectResult, reconnect, unauthorized, channel_closed, revoked, user_revoked, error,
}

abbrev pub backoff_init_secs : ℕ
backoff_init_secs = 1

abbrev pub backoff_max_secs : ℕ
backoff_max_secs = 60

abbrev pub max_consecutive_post_refresh_unauthorized : ℕ
max_consecutive_post_refresh_unauthorized = 3

-- The variables of the loop.
pub record Client : Type 0 where
  pub backoff_secs : ℕ
  pub last_event_id : Option String
  pub current_token : String
  pub current_device_id : String
  pub post_refresh_unauthorized_streak : ℕ
  pub awaiting_post_refresh_check : Bool

unfoldable pub start : Option String → String → String → Client
start last_event_id token device_id = record {
  backoff_secs = backoff_init_secs;
  last_event_id = last_event_id;
  current_token = token;
  current_device_id = device_id;
  post_refresh_unauthorized_streak = 0;
  awaiting_post_refresh_check = false;
}

-- `device_id` is what the database holds, `refreshed` the token of a refresh that succeeds; the
-- refresh is asked only after a 401.
pub record Round : Type 0 where
  pub device_id : Option String
  pub result : ConnectResult
  pub refreshed : Option String

pub data StopReason : Type 0 where
  rejected_account : StopReason
  reconciler_gone : StopReason
  device_revoked : StopReason
  account_revoked : StopReason

pub data Next : Type 0 where
  stop : StopReason → Next
  sleep : (secs : ℕ) → Client → Next

abbrev pub keep_or : Option String → String → String
keep_or none old = old
keep_or (some s) old = s

abbrev newer : Option String → Option String → Option String
newer none old = old
newer (some id) old = some id

unfoldable pub reread_device_id : Option String → Client → Client
reread_device_id found c = record c { current_device_id = keep_or found c.current_device_id }

-- The wait at the end of a round, and the next backoff.
unfoldable pub wait : Client → Next
wait c =
    sleep c.backoff_secs (record c { backoff_secs = min (c.backoff_secs * 2) backoff_max_secs })

unfoldable pub on_reconnect : Option String → Client → Client
on_reconnect new_last_id c = record c {
  backoff_secs = backoff_init_secs;
  post_refresh_unauthorized_streak = 0;
  awaiting_post_refresh_check = false;
  last_event_id = newer new_last_id c.last_event_id;
}

unfoldable pub count_unauthorized : Client → Client
count_unauthorized c = record c {
  post_refresh_unauthorized_streak =
      if c.awaiting_post_refresh_check then c.post_refresh_unauthorized_streak + 1 else 1;
  awaiting_post_refresh_check = false;
}

abbrev after_refresh : Option String → Client → Client
after_refresh none c = c
after_refresh (some token) c = record c {
  current_token = token;
  awaiting_post_refresh_check = true;
}

unfoldable pub on_unauthorized : Option String → Client → Next
unfolding count_unauthorized wait
on_unauthorized refreshed c =
    let c' = count_unauthorized c in
    if ltb max_consecutive_post_refresh_unauthorized c'.post_refresh_unauthorized_streak
    then stop rejected_account
    else wait (after_refresh refreshed c')

abbrev respond : ConnectResult → Option String → Client → Next
respond (reconnect new_last_id) refreshed c = wait (on_reconnect new_last_id c)
respond unauthorized refreshed c = on_unauthorized refreshed c
respond channel_closed refreshed c = stop reconciler_gone
respond revoked refreshed c = stop device_revoked
respond user_revoked refreshed c = stop account_revoked
respond error refreshed c = wait c

-- One round of the loop.
unfoldable pub round : Round → Client → Next
unfolding reread_device_id wait on_reconnect on_unauthorized
round r c = respond r.result r.refreshed (reread_device_id r.device_id c)

-- What the loop does over the rounds that the environment plays: the waits, and how it stands.
pub data Status : Type 0 where
  stopped : StopReason → Status
  running : Client → Status

abbrev pub proceed : (Client → List ℕ × Status) → Next → List ℕ × Status
proceed rest (stop why) = ([], stopped why)
proceed rest (sleep secs c) = (secs ∷ (rest c).0, (rest c).1)

unfoldable pub run : List Round → Client → List ℕ × Status
run [] c = ([], running c)
run (r ∷ rs) c = proceed (run rs) (round r c)
