-- ===== src/Sync/Reconnect/Streak.antt =====
-- The count of rejections between clean connections.
use Prim.Native.Nat.{min}
use vectorhawkd.Base.{
  ℕ, ◌+◌, ◌≤◌, ◌<◌, ◌≡◌, refl, true, some, List, [], ◌∷◌, arith, All, ◌⊎◌, inl, inr, ◌*◌, ltb,
  Bool-cases, if◌then◌else◌, String,
}
use vectorhawkd.Sync.Connect.{ConnectResult, unauthorized, error}
use vectorhawkd.Sync.Reconnect.{
  Client, Round, stop, sleep, running, stopped, rejected_account, round, run, keep_or,
  backoff_max_secs, max_consecutive_post_refresh_unauthorized,
}

-- A round that fails: a connection error, or a 401 whose refresh succeeds.
abbrev pub IsFailing : Round → Type 0
IsFailing r =
    (r.result ≡ error) ⊎ ((token : String) × (r.result ≡ unauthorized) × (r.refreshed ≡ some token))

abbrev pub rejection : ConnectResult → ℕ
rejection unauthorized = 1
rejection _ = 0

-- The 401s among the rounds.
abbrev pub rejections : List Round → ℕ
rejections [] = 0
rejections (r ∷ rs) = rejection r.result + rejections rs

-- Between clean connections the flag is set, or nothing is counted yet.
abbrev pub IsCounting : Client → Type 0
IsCounting c =
    ((c.awaiting_post_refresh_check ≡ true) ⊎ (c.post_refresh_unauthorized_streak ≡ 0))
    × (c.post_refresh_unauthorized_streak ≤ max_consecutive_post_refresh_unauthorized)

abbrev streak : Client → ℕ
streak c = c.post_refresh_unauthorized_streak

-- The next round of a failing client: it goes on with one more rejection counted, or stops.
failing_round :
    (r : Round) (c : Client)
    → IsFailing r
    → IsCounting c
    → ((secs : ℕ) × (c' : Client) × (round r c ≡ sleep secs c')
        × IsCounting c'
        × (streak c' ≡ streak c + rejection r.result))
      ⊎ ((round r c ≡ stop rejected_account)
          × (streak c + rejection r.result ≡ max_consecutive_post_refresh_unauthorized + 1))
unfolding round
failing_round r c (inl e) h = inl (
  c.backoff_secs,
  record c {
    current_device_id = keep_or r.device_id c.current_device_id;
    backoff_secs = min (c.backoff_secs * 2) backoff_max_secs;
  },
  rw e refl,
  h,
  rw e (omega arith),
)
failing_round r c (inr (token, e, f)) h =
    let counted = streak c + 1 in
    let same : (if c.awaiting_post_refresh_check then c.post_refresh_unauthorized_streak + 1 else 1)
        ≡ counted =
      ground (arith, h.0) in
    elim (Bool-cases (ltb max_consecutive_post_refresh_unauthorized counted)) [
      | inl over ↦ inr (rw (e, same, over) refl, rw e (ground (arith, over, h.1)))
      | inr under ↦ inl (
        c.backoff_secs,
        record {
          backoff_secs = min (c.backoff_secs * 2) backoff_max_secs;
          last_event_id = c.last_event_id;
          current_token = token;
          current_device_id = keep_or r.device_id c.current_device_id;
          post_refresh_unauthorized_streak = counted;
          awaiting_post_refresh_check = true;
        },
        rw (e, f, same, under) refl,
        (inl refl, ground (arith, under)),
        rw e refl,
      )
    ]

-- Let each round be a connection error or a 401 whose refresh succeeds, and let the client have a
-- streak within the limit that is either empty or waits for the answer to a refresh. If the streak
-- and the 401s of the rounds are together more than the limit, the client stops as rejected, else
-- it goes on with all of them counted, however many connection errors lie between them.
pub run-rejected :
    (rs : List Round) (c : Client)
    → All IsFailing rs
    → IsCounting c
    → (max_consecutive_post_refresh_unauthorized < streak c + rejections rs
        → (run rs c).1 ≡ stopped rejected_account)
      × (streak c + rejections rs ≤ max_consecutive_post_refresh_unauthorized
          → (c' : Client) × ((run rs c).1 ≡ running c') × (streak c' ≡ streak c + rejections rs))
unfolding run
run-rejected [] c f h = (λ over. absurd (omega (arith, h.1)), λ under. (c, refl, omega arith))
run-rejected (r ∷ rs) c (f, fs) h = elim (failing_round r c f h) [
  | inl (secs, c', e, h', counted) ↦
      let ih = run-rejected rs c' fs h' in
      (
        λ over. rw e (ih.0 (omega (arith, counted))),
        λ under.
            let later = ih.1 (omega (arith, counted)) in
            (later.0, rw e later.1, omega (arith, later.2, counted)),
      )
  | inr (e, limit) ↦ (λ over. rw e refl, λ under. absurd (omega (arith, limit)))
]
