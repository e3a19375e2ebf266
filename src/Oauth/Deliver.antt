-- ===== src/Oauth/Deliver.antt =====
-- The hub keeps its waiters apart, and a callback reaches its own login alone.
use vectorhawkd.Base.{
  ℕ, ◌<◌, String, ◌≡◌, ◌≢◌, inl, inr, false, some, arith, eq_iff, lookup, eqb, ok, err,
  Option-cases, lookup-insert, lookup-remove, lookup-insert_self, eq_refl,
}
use vectorhawkd.Oauth.{OauthState, pending, sent, no_subscriber, new, subscribe, notify, cancel_all}

-- A waiter's channel was handed out, is open, and is no other waiter's.
pub record IsValid (s : OauthState) : Type 0 where
  pub issued : (state : String) (c : ℕ) → lookup state s.waiters ≡ some c → c < s.next
  pub open_still :
      (state : String) (c : ℕ) → lookup state s.waiters ≡ some c → s.channels c ≡ pending
  pub apart :
      (state other : String) (c : ℕ)
      → lookup state s.waiters ≡ some c
      → lookup other s.waiters ≡ some c
      → state ≡ other

new-IsValid : IsValid new
unfolding new lookup
new-IsValid = record {
  issued = λ state c e. cc;
  open_still = λ state c e. cc;
  apart = λ state other c e f. cc;
}

subscribe-IsValid : (s : OauthState) (state : String) → IsValid s → IsValid (subscribe s state).0
unfolding subscribe
subscribe-IsValid s state v = elim (Option-cases (lookup state s.waiters)) [
  | inr (c, taken) ↦ rw (taken, subscribe) v
  | inl free ↦
      rw (free, subscribe)
        (record {
          issued = λ other c e.
              ground (arith, lookup-insert state other s.next s.waiters, v.issued other c);
          open_still = λ other c e. ground (
            arith,
            lookup-insert state other s.next s.waiters,
            v.issued other c,
            v.open_still other c,
          );
          apart = λ one two c e f. ground (
            arith,
            lookup-insert state one s.next s.waiters,
            lookup-insert state two s.next s.waiters,
            v.issued one c,
            v.issued two c,
            v.apart one two c,
            eq_iff state one,
            eq_iff state two,
          );
        })
]

notify-IsValid :
    (s : OauthState) (state code : String) → IsValid s → IsValid (notify s state code).0
unfolding notify
notify-IsValid s state code v = elim (Option-cases (lookup state s.waiters)) [
  | inl free ↦ rw (free, notify) v
  | inr (d, taken) ↦
      rw (taken, notify)
        (record {
          issued =
              λ other c e. ground (arith, lookup-remove state other s.waiters, v.issued other c);
          open_still = λ other c e. ground (
            arith,
            taken,
            lookup-remove state other s.waiters,
            v.open_still other c,
            v.apart state other c,
            eq_iff state other,
          );
          apart = λ one two c e f. ground (
            arith,
            lookup-remove state one s.waiters,
            lookup-remove state two s.waiters,
            v.apart one two c,
          );
        })
]

-- What can happen to the hub.
pub data Step : OauthState → OauthState → Type 0 where
  subscribed : {s : OauthState} (state : String) → Step s (subscribe s state).0
  notified : {s : OauthState} (state code : String) → Step s (notify s state code).0
  cancelled : {s : OauthState} → Step s (cancel_all s)

pub data Reach : OauthState → Type 0 where
  start : Reach new
  step : {s t : OauthState} → Reach s → Step s t → Reach t

-- In every state that the hub reaches, a waiter's channel is open and no other waiter's.
pub Reach-waiters : {s : OauthState} → Reach s → IsValid s
unfolding cancel_all lookup
Reach-waiters start = new-IsValid
Reach-waiters (step {s} r (subscribed state)) = subscribe-IsValid s state (Reach-waiters r)
Reach-waiters (step {s} r (notified state code)) = notify-IsValid s state code (Reach-waiters r)
Reach-waiters (step r cancelled) = record {
  issued = λ state c e. cc;
  open_still = λ state c e. cc;
  apart = λ state other c e f. cc;
}

-- What happens between a login's start and its callback: anything but the callback of its own
-- state and the shutdown.
pub data Quiet : String → OauthState → OauthState → Type 0 where
  none_yet : {state : String} {s : OauthState} → Quiet state s s
  other_login :
      {state : String} {s t : OauthState}
      → Quiet state s t
      → (other : String) → Quiet state s (subscribe t other).0
  other_callback :
      {state : String} {s t : OauthState}
      → Quiet state s t
      → (other code : String) → other ≢ state
      → Quiet state s (notify t other code).0

subscribe-waits :
    (s : OauthState) (other state : String) (c : ℕ)
    → lookup state s.waiters ≡ some c
    → lookup state ((subscribe s other).0).waiters ≡ some c
unfolding subscribe
subscribe-waits s other state c e =
    ground (arith, e, eq_iff other state, lookup-insert other state s.next s.waiters)

notify-waits :
    (s : OauthState) (other code state : String) (c : ℕ)
    → other ≢ state
    → lookup state s.waiters ≡ some c
    → lookup state ((notify s other code).0).waiters ≡ some c
unfolding notify
notify-waits s other code state c n e =
    ground (arith, e, n, eq_iff other state, lookup-remove other state s.waiters)

Quiet-waits :
    {state : String} {s t : OauthState} (c : ℕ)
    → Quiet state s t
    → lookup state s.waiters ≡ some c
    → lookup state t.waiters ≡ some c
Quiet-waits c none_yet e = e
Quiet-waits {state} c (other_login {t = t} q other) e =
    subscribe-waits t other state c (Quiet-waits c q e)
Quiet-waits {state} c (other_callback {t = t} q other code n) e =
    notify-waits t other code state c n (Quiet-waits c q e)

subscribe-starts :
    (s : OauthState) (state : String) (c : ℕ)
    → (subscribe s state).1 ≡ ok c
    → lookup state ((subscribe s state).0).waiters ≡ some c
unfolding subscribe
subscribe-starts s state c began =
    ground (arith, began, eq_refl state, lookup-insert_self state s.next s.waiters)

notify-sends :
    (t : OauthState) (state code again : String) (c : ℕ)
    → lookup state t.waiters ≡ some c
    → (((notify t state code).0).channels c ≡ sent code state)
      × ((d : ℕ) → eqb c d ≡ false → ((notify t state code).0).channels d ≡ t.channels d)
      × ((notify (notify t state code).0 state again).1 ≡ err (no_subscriber state))
unfolding notify
notify-sends t state code again c here = (
  ground (arith, here),
  λ d other. ground (arith, here, other),
  ground (arith, here, eq_refl state, lookup-remove state state t.waiters),
)

-- A callback reaches the login that waits for its state, whatever other logins and callbacks
-- came between: the login's channel holds the code and the state, no other channel changes, and
-- a second callback of the state finds no subscriber.
pub notify-reaches :
    (s t : OauthState) (state code again : String) (c : ℕ)
    → (subscribe s state).1 ≡ ok c
    → Quiet state (subscribe s state).0 t
    → (((notify t state code).0).channels c ≡ sent code state)
      × ((d : ℕ) → eqb c d ≡ false → ((notify t state code).0).channels d ≡ t.channels d)
      × ((notify (notify t state code).0 state again).1 ≡ err (no_subscriber state))
notify-reaches s t state code again c began quiet =
    notify-sends t state code again c (Quiet-waits c quiet (subscribe-starts s state c began))
