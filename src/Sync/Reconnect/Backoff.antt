-- ===== src/Sync/Reconnect/Backoff.antt =====
-- The waits between connection attempts.
use Prim.Native.Nat.{min}
use vectorhawkd.Base.{ℕ, zero, suc, ◌*◌, ◌≤◌, ◌≡◌, refl, List, [], ◌∷◌, arith, All, ap, length}
use vectorhawkd.Sync.Connect.{error}
use vectorhawkd.Sync.Reconnect.{
  Client, Round, Next, stop, sleep, Status, running, round, run, proceed, keep_or,
  backoff_init_secs, backoff_max_secs,
}

abbrev pub InRange : ℕ → Type 0
InRange secs = (backoff_init_secs ≤ secs) × (secs ≤ backoff_max_secs)

abbrev Ensures : Next → Type 0
Ensures (stop why) = Unit
Ensures (sleep secs c) = InRange secs × InRange c.backoff_secs

round-InRange : (r : Round) (c : Client) → InRange c.backoff_secs → Ensures (round r c)
unfolding round
round-InRange r c h = ground arith

proceed-InRange :
    (rest : Client → List ℕ × Status) (n : Next)
    → Ensures n
    → ((c : Client) → InRange c.backoff_secs → All InRange (rest c).0)
    → All InRange (proceed rest n).0
proceed-InRange rest (stop why) e h = tt
proceed-InRange rest (sleep secs c) e h = (e.0, h c e.1)

-- Whatever the connection, the database and the refresh answer, every wait lies between the
-- first and the longest backoff.
pub run-InRange : (rs : List Round) (c : Client) → InRange c.backoff_secs → All InRange (run rs c).0
unfolding run
run-InRange [] c h = tt
run-InRange (r ∷ rs) c h =
    proceed-InRange (run rs) (round r c) (round-InRange r c h) (λ c'. run-InRange rs c')

-- The waits of a client that goes on failing: they double, up to the longest.
abbrev pub doubling : ℕ → ℕ → List ℕ
doubling zero secs = []
doubling (suc n) secs = secs ∷ doubling n (min (secs * 2) backoff_max_secs)

-- Connection errors in a row are waited out with doubling waits, up to the longest; the client
-- goes on, and still counts the same rejections.
pub run-errors :
    (rs : List Round) (c : Client)
    → All (λ r. r.result ≡ error) rs
    → ((run rs c).0 ≡ doubling (length rs) c.backoff_secs)
      × (c' : Client) × ((run rs c).1 ≡ running c')
      × (c'.post_refresh_unauthorized_streak ≡ c.post_refresh_unauthorized_streak)
      × (c'.awaiting_post_refresh_check ≡ c.awaiting_post_refresh_check)
unfolding run round
run-errors [] c h = (refl, c, refl, refl, refl)
run-errors (r ∷ rs) c (e, h) =
    let ih =
      run-errors rs
        (record c {
          current_device_id = keep_or r.device_id c.current_device_id;
          backoff_secs = min (c.backoff_secs * 2) backoff_max_secs;
        })
        h in
    (rw e (ap (λ ws. c.backoff_secs ∷ ws) ih.0), ih.1, rw e ih.2, ih.3, ih.4)
