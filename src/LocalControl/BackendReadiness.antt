-- ===== src/LocalControl/BackendReadiness.antt =====
-- src/local-control/backend-readiness-decision.ts and the loop of `waitForHealth` in
-- src/local-control/excubitor-backend.ts. What a round of the loop sees is an argument: the time since
-- the start, whether the process is alive, and whether its health endpoint answers for it.
pub mod Deadline
use excubitor.Prelude.{ℕ, ◌*◌, List, [], ◌∷◌, Bool, true, false, not, ltb, if◌then◌else◌}

pub data ReadinessDecision : Type 0 where
  wait extend exited timeout : ReadinessDecision

pub record ReadinessDecisionInput : Type 0 where
  pub elapsed_ms : ℕ
  pub timeout_ms : ℕ
  pub process_alive : Bool
  pub extended : Bool

unfoldable pub readiness_decision : ReadinessDecisionInput → ReadinessDecision
readiness_decision input =
    let deadline_ms = if input.extended then input.timeout_ms * 2 else input.timeout_ms in
    if not input.process_alive
    then exited
    else if ltb input.elapsed_ms deadline_ms
    then wait
    else if input.extended
    then timeout
    else extend

pub record Poll : Type 0 where
  pub elapsed_ms : ℕ
  pub process_alive : Bool
  pub healthy : Bool

-- How the wait ends; `waiting` if all polls are used up.
pub data Outcome : Type 0 where
  ready gone timed_out waiting : Outcome

unfoldable pub wait_for_health : ℕ → Bool → List Poll → Outcome
wait_for_health timeout_ms extended [] = waiting
wait_for_health timeout_ms extended (p ∷ polls) =
    let decision = readiness_decision (record {
      elapsed_ms = p.elapsed_ms;
      timeout_ms = timeout_ms;
      process_alive = p.process_alive;
      extended = extended;
    }) in
    let again = wait_for_health timeout_ms extended polls in
    let longer = wait_for_health timeout_ms true polls in
    elim decision [
      | exited ↦ gone
      | timeout ↦ timed_out
      | extend ↦ if p.healthy then ready else longer
      | wait ↦ if p.healthy then ready else again
    ]
