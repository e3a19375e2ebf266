-- ===== src/Takeover/Gates.antt =====
-- The gates of a takeover.
use vectorhawkd.Base.{
  ℕ, ◌≡◌, ◌≢◌, refl, ◌↔◌, ◌⊎◌, inl, inr, Bool, true, false, Option, none, some, List, arith,
  Bool-cases, Option-cases, ap, ◌∙◌,
}
use vectorhawkd.Takeover.{
  Inspector, is_daemon_run, is_true, StalenessReason, older_version, exe_replaced_or_deleted,
  Verdict, take_over, refuse, verify_pid, carry_out, decide_and_signal_takeover,
}

module _ {V : Type 0} (older : V → V → Bool) where
  -- What the module's comment asks of a pid before it is taken over.
  pub record MayTakeOver (i : Inspector) (pid our_pid : ℕ) (our : V) (hint : Option V)
      : Type 0 where
    pub other : pid ≢ our_pid
    pub same_uid : i.same_uid_alive pid ≡ some true
    pub daemon_run : is_daemon_run (i.argv pid) ≡ true
    pub stale :
        (i.exe_replaced_or_deleted pid ≡ some true)
        ⊎ ((v : V) × (hint ≡ some v) × (older v our ≡ true))

  module _ (i : Inspector) (pid our_pid : ℕ) (our : V) (hint : Option V) where
    -- A pid is taken over exactly if it is another process of the same user that runs
    -- `scenery daemon run` and is stale by its executable or by its version.
    pub verify_pid-take_over :
        ((why : StalenessReason V) × (verify_pid older i pid our_pid our hint ≡ take_over pid why))
        ↔ MayTakeOver i pid our_pid our hint
    unfolding verify_pid
    verify_pid-take_over = (
      λ h. record {
        other = λ e. ground (arith, h.1, e);
        same_uid = ground (arith, h.1);
        daemon_run = ground (arith, h.1);
        stale = elim (Bool-cases (is_true (i.exe_replaced_or_deleted pid))) [
          | inl gone ↦ inl (ground (arith, gone))
          | inr there ↦ inr (elim (Option-cases hint) [
            | inl unknown ↦ absurd (ground (arith, h.1, there, unknown))
            | inr (v, known) ↦ (v, known, ground (arith, h.1, there, known))
          ])
        ];
      },
      λ h. elim (Bool-cases (is_true (i.exe_replaced_or_deleted pid))) [
        | inl gone ↦
            (exe_replaced_or_deleted, ground (arith, h.other, h.same_uid, h.daemon_run, gone))
        | inr there ↦ elim h.stale [
          | inl gone ↦ absurd (ground (arith, gone, there))
          | inr (v, known, less) ↦ (
            older_version v,
            ground (arith, h.other, h.same_uid, h.daemon_run, there, known, less),
          )
        ]
      ],
    )

    verify_pid-pid :
        (q : ℕ) (why : StalenessReason V)
        → verify_pid older i pid our_pid our hint ≡ take_over q why
        → q ≡ pid
    unfolding verify_pid
    verify_pid-pid q why h = ground (arith, h)

    module _ {R : Type 0} (run_takeover : ℕ → List ℕ → R) where
      carry_out-take_over :
          (v : Verdict V) (why : StalenessReason V) (argv : List ℕ)
          → v ≡ take_over pid why
          → i.argv pid ≡ some argv
          → (carry_out older i run_takeover v).1 ≡ some (run_takeover pid argv)
      carry_out-take_over v why argv e known = rw (e, known) refl

      carry_out-refuse :
          (v : Verdict V)
          → ((q : ℕ) (why : StalenessReason V) → v ≢ take_over q why)
          → (carry_out older i run_takeover v).1 ≡ none
      carry_out-refuse (refuse q why) h = refl
      carry_out-refuse (take_over q why) h = absurd (h q why refl)

      -- The signals are sent exactly if the pid may be taken over, to that pid and with its argv.
      pub decide_and_signal_takeover_lem :
          (MayTakeOver i pid our_pid our hint
            → (argv : List ℕ) × (i.argv pid ≡ some argv)
              × ((decide_and_signal_takeover older i pid our_pid our hint run_takeover).1
                  ≡ some (run_takeover pid argv)))
          × (¬ MayTakeOver i pid our_pid our hint
              → (decide_and_signal_takeover older i pid our_pid our hint run_takeover).1 ≡ none)
      unfolding decide_and_signal_takeover
      decide_and_signal_takeover_lem = (
        λ may.
            let (why, verdict) = verify_pid-take_over.1 may in
            elim (Option-cases (i.argv pid)) [
              | inl unknown ↦ absurd (ground (arith, may.daemon_run, unknown))
              | inr (argv, known) ↦ (argv, known, carry_out-take_over _ why argv verdict known)
            ],
        λ may_not. carry_out-refuse _ λ q why e.
            may_not (
              verify_pid-take_over.0 (why, e ∙ ap (λ p. take_over p why) (verify_pid-pid q why e))),
      )

  -- Of two daemons with intact executables, of which each knows the other's version, at most one
  -- takes the other over, if no two versions are older than each other.
  pub no_mutual_takeover :
      ((v w : V) → older v w ≡ true → older w v ≡ false)
      → (i j : Inspector) (p q : ℕ) (v w : V) (why why' : StalenessReason V)
      → i.exe_replaced_or_deleted q ≢ some true
      → j.exe_replaced_or_deleted p ≢ some true
      → verify_pid older i q p v (some w) ≡ take_over q why
      → verify_pid older j p q w (some v) ≢ take_over p why'
  no_mutual_takeover asym i j p q v w why why' intact intact' e e' =
      let h = (verify_pid-take_over i q p v (some w)).0 (why, e) in
      let h' = (verify_pid-take_over j p q w (some v)).0 (why', e') in
      elim h.stale [
        | inl gone ↦ absurd (intact gone)
        | inr (v', known, less) ↦ elim h'.stale [
          | inl gone ↦ absurd (intact' gone)
          | inr (w', known', less') ↦ ground (arith, asym w v, known, known', less, less')
        ]
      ]
