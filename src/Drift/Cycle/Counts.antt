-- ===== src/Drift/Cycle/Counts.antt =====
-- What a cycle counts, reports and leaves alone.
use vectorhawkd.Base.{
  ◌+◌, ◌≡◌, refl, ◌∙◌, inl, inr, String, Option, List, [], ◌∷◌, arith, length, length-append,
  Bool-cases,
}
use vectorhawkd.Drift.{DriftOutcome, DriftStatus, PolicyMode, Host, scan_once, read_policy_mode}
use vectorhawkd.Drift.Resolve.{World}
use vectorhawkd.Drift.Cycle.{
  Links, Cycle, handle_outcome, handle_outcomes, run_cycle, on_status, is_replaced, apply_policy,
}

module _ (host : Host) (links : Links) (now : String) where
  abbrev IsCounted : Cycle → Type 0
  IsCounted c = length (c.to_report) ≡ (c.stats).drifted + (c.stats).deleted

  on_status-IsCounted :
      (mode : PolicyMode) (c : Cycle) (o : DriftOutcome) (status : DriftStatus)
      → IsCounted c
      → IsCounted (on_status host links now mode c o status)
  on_status-IsCounted mode c o DriftStatus.clean counted =
      elim (Bool-cases (is_replaced host links now (c.world) o)) [
        | inl replaced ↦ rw replaced (length-append (c.to_report) _ ∙ omega (arith, counted))
        | inr intact ↦ rw intact counted
      ]
  on_status-IsCounted mode c o DriftStatus.drifted counted =
      length-append (c.to_report) _ ∙ omega (arith, counted)
  on_status-IsCounted mode c o DriftStatus.deleted counted =
      length-append (c.to_report) _ ∙ omega (arith, counted)

  handle_outcomes-IsCounted :
      (mode : PolicyMode) (c : Cycle) (outcomes : List DriftOutcome)
      → IsCounted c
      → IsCounted (handle_outcomes host links now mode c outcomes)
  unfolding handle_outcomes
  handle_outcomes-IsCounted mode c [] counted = counted
  handle_outcomes-IsCounted mode c (o ∷ outcomes) counted =
      handle_outcomes-IsCounted mode (handle_outcome host links now mode c o) outcomes
        (on_status-IsCounted mode c o (o.status) counted)

  on_status-scanned :
      (mode : PolicyMode) (c : Cycle) (o : DriftOutcome) (status : DriftStatus)
      → ((on_status host links now mode c o status).stats).scanned ≡ (c.stats).scanned
  on_status-scanned mode c o DriftStatus.clean =
      elim (Bool-cases (is_replaced host links now (c.world) o)) [
        | inl replaced ↦ rw replaced refl
        | inr intact ↦ rw intact refl
      ]
  on_status-scanned mode c o _ = refl

  handle_outcomes-scanned :
      (mode : PolicyMode) (c : Cycle) (outcomes : List DriftOutcome)
      → ((handle_outcomes host links now mode c outcomes).stats).scanned ≡ (c.stats).scanned
  unfolding handle_outcomes
  handle_outcomes-scanned mode c [] = refl
  handle_outcomes-scanned mode c (o ∷ outcomes) =
      handle_outcomes-scanned mode (handle_outcome host links now mode c o) outcomes
      ∙ on_status-scanned mode c o (o.status)

  -- A cycle reports one item for each item that it counts as drifted or deleted, and the count of
  -- what was scanned is that of the markers that the scan does not pass over.
  pub run_cycle-counts :
      (mode : Option String) (w : World)
      → (length ((run_cycle host links now mode w).to_report)
          ≡ ((run_cycle host links now mode w).stats).drifted
            + ((run_cycle host links now mode w).stats).deleted)
        × (((run_cycle host links now mode w).stats).scanned
            ≡ length (scan_once host (w.disk) (w.markers)))
  unfolding run_cycle
  run_cycle-counts mode w =
      let outcomes = scan_once host (w.disk) (w.markers) in
      (
        handle_outcomes-IsCounted (read_policy_mode mode) _ outcomes (omega arith),
        handle_outcomes-scanned (read_policy_mode mode) _ outcomes,
      )

  -- The modes that only report.
  abbrev pub IsPassive : PolicyMode → Type 0
  IsPassive PolicyMode.quarantine = ⊥
  IsPassive _ = Unit

  on_status-disk :
      (mode : PolicyMode) (c : Cycle) (o : DriftOutcome) (status : DriftStatus)
      → IsPassive mode
      → ((on_status host links now mode c o status).world).disk ≡ (c.world).disk
  unfolding apply_policy
  on_status-disk mode c o DriftStatus.clean passive =
      elim (Bool-cases (is_replaced host links now (c.world) o)) [
        | inl replaced ↦ rw replaced refl
        | inr intact ↦ rw intact refl
      ]
  on_status-disk PolicyMode.quarantine c o DriftStatus.drifted passive = absurd passive
  on_status-disk PolicyMode.audit_only c o DriftStatus.drifted passive = refl
  on_status-disk PolicyMode.warn c o DriftStatus.drifted passive = refl
  on_status-disk PolicyMode.approve_required c o DriftStatus.drifted passive = refl
  on_status-disk mode c o DriftStatus.deleted passive = refl

  handle_outcomes-disk :
      (mode : PolicyMode) (c : Cycle) (outcomes : List DriftOutcome)
      → IsPassive mode
      → ((handle_outcomes host links now mode c outcomes).world).disk ≡ (c.world).disk
  unfolding handle_outcomes
  handle_outcomes-disk mode c [] passive = refl
  handle_outcomes-disk mode c (o ∷ outcomes) passive =
      handle_outcomes-disk mode (handle_outcome host links now mode c o) outcomes passive
      ∙ on_status-disk mode c o (o.status) passive

  -- In every mode but quarantine a cycle leaves the disk as it was.
  pub run_cycle-disk :
      (mode : Option String) (w : World)
      → IsPassive (read_policy_mode mode)
      → ((run_cycle host links now mode w).world).disk ≡ w.disk
  unfolding run_cycle
  run_cycle-disk mode w passive =
      handle_outcomes-disk (read_policy_mode mode) _ (scan_once host (w.disk) (w.markers)) passive
