-- ===== src/Takeover.antt =====
-- crates/scenery-daemon/src/daemon_takeover.rs: whether a running daemon may be replaced. What the
-- kernel reports of a process, the versions and their order, and the signal are parameters.
pub mod Cmdline
pub mod Gates
pub mod Unique
use vectorhawkd.Base.{
  ℕ, Bool, true, false, ◌&&◌, not, Option, none, some, List, [], ◌∷◌, eqb, keep, if◌then◌else◌,
}
use vectorhawkd.Takeover.Cmdline.{cmdline_is_daemon_run}

-- `process_probe::ProcessInspector`, as far as this module asks it.
pub record Inspector : Type 0 where
  pub same_uid_alive : ℕ → Option Bool
  pub argv : ℕ → Option (List ℕ)
  pub exe_replaced_or_deleted : ℕ → Option Bool
  pub all_pids : List ℕ

abbrev pub is_daemon_run : Option (List ℕ) → Bool
is_daemon_run none = false
is_daemon_run (some argv) = cmdline_is_daemon_run argv

abbrev pub is_true : Option Bool → Bool
is_true (some true) = true
is_true _ = false

pub data RefuseReason : Type 0 where
  this_process other_uid not_confirmed_alive not_daemon_run not_older version_unknown : RefuseReason

pub data StalenessReason (V : Type 0) : Type 0 where
  older_version : V → StalenessReason V
  exe_replaced_or_deleted : StalenessReason V

pub data Verdict (V : Type 0) : Type 0 where
  take_over : (pid : ℕ) → StalenessReason V → Verdict V
  refuse : (pid : ℕ) → RefuseReason → Verdict V

-- `V` are the versions of the semver crate and `older` is its `<`.
module _ {V : Type 0} (older : V → V → Bool) where
  abbrev judge_version : ℕ → V → Option V → Verdict V
  judge_version pid our_version none = refuse pid version_unknown
  judge_version pid our_version (some v) =
      if older v our_version then take_over pid (older_version v) else refuse pid not_older

  abbrev judge_alive : Inspector → ℕ → V → Option V → Option Bool → Verdict V
  judge_alive inspector pid our_version version_hint none = refuse pid not_confirmed_alive
  judge_alive inspector pid our_version version_hint (some false) = refuse pid other_uid
  judge_alive inspector pid our_version version_hint (some true) =
      if not (is_daemon_run (inspector.argv pid))
      then refuse pid not_daemon_run
      else if is_true (inspector.exe_replaced_or_deleted pid)
      then take_over pid exe_replaced_or_deleted
      else judge_version pid our_version version_hint

  unfoldable pub verify_pid :
      (inspector : Inspector) (pid our_pid : ℕ) (our_version : V) (version_hint : Option V)
      → Verdict V
  verify_pid inspector pid our_pid our_version version_hint =
      if eqb pid our_pid
      then refuse pid this_process
      else judge_alive inspector pid our_version version_hint (inspector.same_uid_alive pid)

  abbrev pub or_empty : Option (List ℕ) → List ℕ
  or_empty none = []
  or_empty (some argv) = argv

  abbrev pub carry_out :
      {R : Type 0} → Inspector → (ℕ → List ℕ → R) → Verdict V → Verdict V × Option R
  carry_out inspector run_takeover (refuse pid why) = (refuse pid why, none)
  carry_out inspector run_takeover (take_over pid why) =
      (take_over pid why, some (run_takeover pid (or_empty (inspector.argv pid))))

  -- `run_takeover` stands for the signals; its result is present if it was called.
  unfoldable pub decide_and_signal_takeover :
      {R : Type 0} (inspector : Inspector) (pid our_pid : ℕ) (our_version : V)
      (version_hint : Option V)
      → (ℕ → List ℕ → R)
      → Verdict V × Option R
  unfolding verify_pid
  decide_and_signal_takeover inspector pid our_pid our_version version_hint run_takeover =
      carry_out inspector run_takeover (verify_pid inspector pid our_pid our_version version_hint)

-- The three filters on one pid.
abbrev pub is_candidate : Inspector → ℕ → ℕ → Bool
is_candidate inspector our_pid pid =
    not (eqb pid our_pid)
    && is_true (inspector.same_uid_alive pid)
    && is_daemon_run (inspector.argv pid)

-- `Vec::dedup` drops an element equal to the one before it.
unfoldable pub dedup : List ℕ → List ℕ
dedup [] = []
dedup (x ∷ []) = x ∷ []
dedup (x ∷ (y ∷ xs)) = let rest = dedup (y ∷ xs) in if eqb x y then rest else x ∷ rest

abbrev pub only : List ℕ → Option ℕ
only (x ∷ []) = some x
only _ = none

unfoldable pub resolve_unique_daemon_run_pid : Inspector → ℕ → Option ℕ
unfolding dedup
resolve_unique_daemon_run_pid inspector our_pid =
    only (dedup (keep (is_candidate inspector our_pid) inspector.all_pids))
