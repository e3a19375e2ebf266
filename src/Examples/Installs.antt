-- ===== src/Examples/Installs.antt =====
-- An install that is waited for, of crates/scenery-core/src/mcp_governance.rs.
use vectorhawkd.Base.{◌*◌, ◌≡◌, refl, String, none, some, arith, eqb, if◌then◌else◌, Result, ok}
use vectorhawkd.Governance.{
  InstallError, Response, Outside, requested, default_timing, install_via_desired_state_with_timing,
}
use vectorhawkd.Governance.Wait.{TakesTime, IsFirst, install_via_desired_state_with_timing-ends}

-- Rounds of half a second; the skill is active in the third.
abbrev third_round : Outside
third_round = record {
  clock = λ tick. 500 * tick;
  row = λ tick. if eqb tick 2 then ok (some ("active", "1.0.0")) else ok none;
  mine = λ tick. none;
}

abbrev created : Response
created = record { status = 201; text = ""; installation_id = some "7" }

created_is_accepted : requested (some created) ≡ ok (some "7")
unfolding requested
created_is_accepted = refl

rounds_take_time : TakesTime default_timing third_round
rounds_take_time tick = omega arith

install_via_desired_state_with_timing-ends_example :
    (result : Result InstallError String) × (install_via_desired_state_with_timing default_timing
        third_round
        (some created)
      ≡ some result)
    × IsFirst default_timing third_round (some "7") 0 result
install_via_desired_state_with_timing-ends_example =
    install_via_desired_state_with_timing-ends default_timing third_round created
      created_is_accepted (omega arith) rounds_take_time
