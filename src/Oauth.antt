-- ===== src/Oauth.antt =====
-- crates/scenery-daemon/src/oauth_state.rs: the hub that hands an OAuth callback to the login
-- that waits for it. A channel is a number and what its receiver will see; the lock makes each
-- operation one step.
pub mod Deliver
use vectorhawkd.Base.{
  ℕ, suc, String, Bool, true, false, Option, none, some, List, [], ◌∷◌, Dict, lookup, insert,
  remove, eqb, if◌then◌else◌, Result, ok, err,
}

pub data OauthStateError : Type 0 where
  duplicate_subscriber no_subscriber : String → OauthStateError

-- What the receiver of a oneshot channel sees.
pub data Channel : Type 0 where
  pending closed : Channel
  sent : (code state : String) → Channel

pub record OauthState : Type 0 where
  pub waiters : Dict ℕ
  pub channels : ℕ → Channel
  pub next : ℕ

unfoldable pub new : OauthState
new = record { waiters = []; channels = λ c. Channel.closed; next = 0 }

-- The channel `c` alone changes.
abbrev pub update : ℕ → Channel → (ℕ → Channel) → ℕ → Channel
update c value channels d = if eqb c d then value else channels d

-- The receiver is the number of its channel.
unfoldable pub subscribe : OauthState → String → OauthState × Result OauthStateError ℕ
subscribe s state = elim (lookup state (s.waiters)) [
  | some c ↦ (s, err (duplicate_subscriber state))
  | none ↦
      let c = s.next in
      (
        record s {
          waiters = insert state c s.waiters;
          channels = update c Channel.pending s.channels;
          next = suc c;
        },
        ok c,
      )
]

-- A send to a receiver that was dropped is ignored.
unfoldable pub notify :
    OauthState → String → String → OauthState × Result OauthStateError (Unit {0})
notify s state code = elim (lookup state (s.waiters)) [
  | none ↦ (s, err (no_subscriber state))
  | some c ↦ (
    record s {
      waiters = remove state s.waiters;
      channels = update c (Channel.sent code state) s.channels;
    },
    ok tt,
  )
]

-- The channels of the waiters close.
abbrev close_all : Dict ℕ → (ℕ → Channel) → ℕ → Channel
close_all [] channels = channels
close_all ((state, c) ∷ waiters) channels = update c Channel.closed (close_all waiters channels)

unfoldable pub cancel_all : OauthState → OauthState
cancel_all s = record s { waiters = []; channels = close_all s.waiters s.channels }
