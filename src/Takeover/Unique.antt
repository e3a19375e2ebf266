-- ===== src/Takeover/Unique.antt =====
-- The search for the one daemon that may hold the lock.
use vectorhawkd.Base.{
  ℕ, ◌≡◌, ◌≢◌, ◌↔◌, refl, Bool, true, false, Option, none, some, List, [], ◌∷◌, arith, eqb, keep,
  All, Bool-cases, inl, inr, any, All-imp,
}
use vectorhawkd.Takeover.{
  Inspector, is_true, is_daemon_run, is_candidate, dedup, only, resolve_unique_daemon_run_pid,
}
use vectorhawkd.Takeover.Cmdline.{cmdline_is_daemon_run}

abbrev pub is_in : ℕ → List ℕ → Bool
is_in x xs = any (λ y. eqb y x) xs

dedup-ne-nil : (x : ℕ) (xs : List ℕ) → dedup (x ∷ xs) ≢ []
unfolding dedup
dedup-ne-nil x [] h = cc
dedup-ne-nil x (y ∷ xs) h = ground (arith, h, dedup-ne-nil y xs)

dedup-only : (xs : List ℕ) (p : ℕ) → dedup xs ≡ p ∷ [] → All (λ x. x ≡ p) xs × (is_in p xs ≡ true)
unfolding dedup
dedup-only [] p h = absurd (ground (arith, h))
dedup-only (x ∷ []) p h = ((ground (arith, h), tt), ground (arith, h))
dedup-only (x ∷ (y ∷ xs)) p h = elim (Bool-cases (eqb x y)) [
  | inl same ↦
      let ih = dedup-only (y ∷ xs) p (ground (arith, h, same)) in
      ((ground (arith, same, ih.0.0), ih.0), ground (arith, ih.1))
  | inr other ↦ absurd (dedup-ne-nil y xs (ground (arith, h, other)))
]

keep-All :
    (c : ℕ → Bool) (p : ℕ) (xs : List ℕ)
    → All (λ x. x ≡ p) (keep c xs)
    → All (λ x. c x ≡ true → x ≡ p) xs
keep-All c p [] h = tt
keep-All c p (x ∷ xs) h = elim (Bool-cases (c x)) [
  | inl hit ↦
      let k : All (λ x. x ≡ p) (x ∷ keep c xs) = rw hit at h in (λ _. k.0, keep-All c p xs k.1)
  | inr miss ↦ (λ hit. ground (arith, hit, miss), keep-All c p xs (rw miss at h))
]

is_in-keep :
    (c : ℕ → Bool) (p : ℕ) (xs : List ℕ)
    → is_in p (keep c xs) ≡ true
    → (is_in p xs ≡ true) × (c p ≡ true)
is_in-keep c p [] h = absurd (ground (arith, h))
is_in-keep c p (x ∷ xs) h = elim (Bool-cases (c x)) [
  | inl hit ↦
      let k : is_in p (x ∷ keep c xs) ≡ true = rw hit at h in
      elim (Bool-cases (eqb x p)) [
        | inl same ↦ let e : x ≡ p = ground (arith, same) in (rw same refl, rw (← e) hit)
        | inr other ↦ let ih = is_in-keep c p xs (ground (arith, k, other)) in (rw other ih.0, ih.1)
      ]
  | inr miss ↦ let ih = is_in-keep c p xs (rw miss at h) in (ground (arith, ih.0), ih.1)
]

only-eq : (xs : List ℕ) (p : ℕ) → only xs ≡ some p → xs ≡ p ∷ []
only-eq [] p h = cc
only-eq (x ∷ []) p h = ground (arith, h)
only-eq (x ∷ (y ∷ xs)) p h = cc

-- Another process than this one, alive, of this user, and with the arguments of `scenery daemon
-- run`.
abbrev pub IsOtherDaemon : Inspector → (our_pid pid : ℕ) → Type 0
IsOtherDaemon i our_pid pid =
    (pid ≢ our_pid)
    × (i.same_uid_alive pid ≡ some true)
    × ((argv : List ℕ) × (i.argv pid ≡ some argv) × (cmdline_is_daemon_run argv ≡ true))

is_true_iff : (answer : Option Bool) → (is_true answer ≡ true) ↔ (answer ≡ some true)
is_true_iff none = (λ h. cc, λ h. cc)
is_true_iff (some true) = (λ h. refl, λ h. refl)
is_true_iff (some false) = (λ h. cc, λ h. cc)

is_daemon_run_iff :
    (answer : Option (List ℕ))
    → (is_daemon_run answer ≡ true)
      ↔ ((argv : List ℕ) × (answer ≡ some argv) × (cmdline_is_daemon_run argv ≡ true))
is_daemon_run_iff none = (λ h. cc, λ h. cc)
is_daemon_run_iff (some argv) =
    (λ h. (argv, refl, h), λ h. let same : argv ≡ h.0 = cc in rw same h.2)

is_candidate_iff :
    (i : Inspector) (our_pid pid : ℕ)
    → (is_candidate i our_pid pid ≡ true) ↔ IsOtherDaemon i our_pid pid
is_candidate_iff i our_pid pid =
    let alive = is_true_iff (i.same_uid_alive pid) in
    let daemon = is_daemon_run_iff (i.argv pid) in
    (
      λ h. (λ e. ground (arith, h, e), alive.0 (ground (arith, h)), daemon.0 (ground (arith, h))),
      λ h. let a = alive.1 (h.1) in let d = daemon.1 (h.2) in ground (arith, a, d, h.0),
    )

-- A pid is resolved only if it is listed and a live `scenery daemon run` of this user other than
-- this process, and no other listed pid is one.
pub resolve_unique_daemon_run_pid_unique :
    (i : Inspector) (our_pid pid : ℕ)
    → resolve_unique_daemon_run_pid i our_pid ≡ some pid
    → (is_in pid i.all_pids ≡ true)
      × IsOtherDaemon i our_pid pid
      × All (λ q. IsOtherDaemon i our_pid q → q ≡ pid) i.all_pids
unfolding resolve_unique_daemon_run_pid
resolve_unique_daemon_run_pid_unique i our_pid pid h =
    let found = dedup-only _ pid (only-eq _ pid h) in
    let listed = is_in-keep (is_candidate i our_pid) pid i.all_pids found.1 in
    (
      listed.0,
      (is_candidate_iff i our_pid pid).0 listed.1,
      All-imp (λ q h other. h ((is_candidate_iff i our_pid q).1 other)) i.all_pids
          (keep-All (is_candidate i our_pid) pid i.all_pids found.0),
    )
