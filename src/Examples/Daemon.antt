-- ===== src/Examples/Daemon.antt =====
-- Examples on the takeover, the event stream, the callbacks and the frames of
-- crates/scenery-daemon.
use vectorhawkd.Base.{
  ℕ, suc, ◌≤◌, ◌<◌, ◌≡◌, ◌≢◌, refl, ◌↔◌, ◌⊎◌, inl, inr, String, Bool, true, false, ltb, Option,
  none, some, List, [], ◌∷◌, ◌++◌, ◌+◌, arith, length, All, lookup, eqb, if◌then◌else◌, Result, ok,
  err,
}
use vectorhawkd.Base
use vectorhawkd.Base.Json.{field, end, string, object}
use vectorhawkd.Takeover
use vectorhawkd.Takeover.{
  Inspector, StalenessReason, Verdict, take_over, verify_pid, decide_and_signal_takeover,
  resolve_unique_daemon_run_pid, is_candidate,
}
use vectorhawkd.Takeover.Cmdline.{
  bytes, join, NoNul, cmdline_is_daemon_run, split, basename, basename_from,
}
use vectorhawkd.Takeover.Gates.{MayTakeOver, verify_pid-take_over, no_mutual_takeover}
use vectorhawkd.Takeover.Unique.{is_in, IsOtherDaemon, resolve_unique_daemon_run_pid_unique}
use vectorhawkd.Sync.Connect
use vectorhawkd.Sync.Connect.{Response, connect_and_stream, is_device_revoked_body, eof}
use vectorhawkd.Sync.Reconnect.{
  Client, Round, start, run, stopped, running, rejected_account,
  max_consecutive_post_refresh_unauthorized,
}
use vectorhawkd.Sync.Reconnect.Streak.{rejections, run-rejected}
use vectorhawkd.Snapshot.{InstallationRecord, Local}
use vectorhawkd.Oauth.{new, subscribe, notify, sent, no_subscriber}
use vectorhawkd.Oauth.Deliver.{
  IsValid, Reach, step, subscribed, Reach-waiters, Quiet, none_yet, other_login, other_callback,
  notify-reaches,
}
use vectorhawkd.Oauth.Deliver
use vectorhawkd.Frames.{write_framed_blocking, read_framed_blocking}
use vectorhawkd.Frames.RoundTrip.{read_framed_blocking-write_framed_blocking}

abbrev run_argv : List ℕ
run_argv = join (bytes "/usr/bin/scn") (bytes "daemon" ∷ (bytes "run" ∷ []))

-- One process, the daemon 7, whose executable is intact.
abbrev one_daemon : Inspector
one_daemon = record {
  same_uid_alive = λ pid. some true;
  argv = λ pid. if eqb pid 7 then some run_argv else none;
  exe_replaced_or_deleted = λ pid. some false;
  all_pids = 3 ∷ (7 ∷ []);
}

-- Versions as numbers.
verify_pid-take_over_example :
    ((why : StalenessReason ℕ) × (verify_pid ltb one_daemon 7 3 2 (some 1) ≡ take_over 7 why))
    ↔ MayTakeOver ltb one_daemon 7 3 2 (some 1)
verify_pid-take_over_example = verify_pid-take_over ltb one_daemon 7 3 2 (some 1)

asym : (v w : ℕ) → ltb v w ≡ true → ltb w v ≡ false
asym v w h = ground arith

intact : (some false) ≢ some true
intact e = cc

takes_over : verify_pid ltb one_daemon 7 3 2 (some 1) ≡ take_over 7 (Takeover.older_version 1)
unfolding verify_pid cmdline_is_daemon_run split basename basename_from
takes_over = refl

no_mutual_takeover_example :
    verify_pid ltb one_daemon 3 7 1 (some 2) ≢ take_over 3 (Takeover.older_version 2)
no_mutual_takeover_example =
    no_mutual_takeover ltb asym one_daemon one_daemon 3 7 2 1 (Takeover.older_version 1)
      (Takeover.older_version 2) intact intact takes_over

resolve_unique_daemon_run_pid_unique_example :
    (is_in 7 one_daemon.all_pids ≡ true)
    × IsOtherDaemon one_daemon 3 7
    × All (λ q. IsOtherDaemon one_daemon 3 q → q ≡ 7) one_daemon.all_pids
unfolding resolve_unique_daemon_run_pid Takeover.dedup cmdline_is_daemon_run split basename
    basename_from
resolve_unique_daemon_run_pid_unique_example =
    resolve_unique_daemon_run_pid_unique one_daemon 3 7 refl

NoNul-scn : NoNul (bytes "scn")
NoNul-scn = ((λ e. omega (arith, e)), ((λ e. omega (arith, e)), ((λ e. omega (arith, e)), tt)))

abbrev revoked_answer : Response
revoked_answer = record {
  status = 403;
  body = some (object (field "detail" (object (field "code" (string "device_revoked") end)) end));
  stream = eof none;
}

abbrev fresh_client : Client
fresh_client = start none "token" "device"

abbrev refused_round : Round
refused_round = record { device_id = none; result = Connect.unauthorized; refreshed = some "token" }

abbrev failed_round : Round
failed_round = record { device_id = none; result = Connect.error; refreshed = none }

-- Four rejections with a connection error among them.
abbrev hard_day : List Round
hard_day = refused_round ∷ (failed_round ∷ (refused_round ∷ (refused_round ∷ (refused_round ∷ []))))

run-rejected_example :
    (max_consecutive_post_refresh_unauthorized
        < fresh_client.post_refresh_unauthorized_streak + rejections hard_day
      → (run hard_day fresh_client).1 ≡ stopped rejected_account)
    × (fresh_client.post_refresh_unauthorized_streak + rejections hard_day
          ≤ max_consecutive_post_refresh_unauthorized
        → (c : Client) × ((run hard_day fresh_client).1 ≡ running c)
          × (c.post_refresh_unauthorized_streak
              ≡ fresh_client.post_refresh_unauthorized_streak + rejections hard_day))
unfolding start
run-rejected_example =
    run-rejected hard_day fresh_client
      (
        inr ("token", refl, refl),
        (
          inl refl,
          (inr ("token", refl, refl), (inr ("token", refl, refl), (inr ("token", refl, refl), tt))),
        ),
      )
      (inr refl, omega arith)

abbrev wanted : InstallationRecord
wanted = record {
  installation_id = 1;
  skill_id = "review";
  version = "1.0.0";
  state = "installed";
  source = none;
}

abbrev gone : InstallationRecord
gone = record {
  installation_id = 2;
  skill_id = "draft";
  version = "1.0.0";
  state = "removed";
  source = none;
}

abbrev disk : Local
disk = record { skills = ("draft", ("1.0.0", false)) ∷ []; active_link = λ skill. true }

Reach-waiters_example : IsValid (subscribe new "state").0
Reach-waiters_example = Reach-waiters (step Deliver.start (subscribed "state"))

notify-reaches_example :
    let late = (subscribe (subscribe new "state").0 "other").0 in
    (((notify late "state" "code").0).channels 0 ≡ sent "code" "state")
    × ((d : ℕ) → eqb 0 d ≡ false → ((notify late "state" "code").0).channels d ≡ late.channels d)
    × ((notify (notify late "state" "code").0 "state" "again").1 ≡ err (no_subscriber "state"))
unfolding subscribe new Base.lookup
notify-reaches_example =
    notify-reaches new (subscribe (subscribe new "state").0 "other").0 "state" "code" "again" 0 refl
      (other_login none_yet "other")

read_framed_blocking-write_framed_blocking_example :
    read_framed_blocking (write_framed_blocking [] (104 ∷ (105 ∷ [])) ++ 9 ∷ [])
    ≡ ok (some (104 ∷ (105 ∷ []), 9 ∷ []))
read_framed_blocking-write_framed_blocking_example =
    read_framed_blocking-write_framed_blocking (104 ∷ (105 ∷ [])) (9 ∷ []) (omega arith)
