-- ===== src/LocalControl/BackendReadiness/Deadline.antt =====
-- src/local-control/excubitor-backend.ts: when `waitForHealth` gives up.
use excubitor.Prelude.{ℕ, ◌*◌, ◌≤◌, ◌<◌, ◌≢◌, List, [], ◌∷◌, ◌++◌, Bool, true, All, arith}
use excubitor.LocalControl.BackendReadiness.{
  readiness_decision, Poll, waiting, timed_out, wait_for_health,
}

-- Two polls at twice the timeout or later end the wait, whatever came before.
pub wait_for_health-ends :
    (timeout_ms : ℕ) (extended : Bool) (polls : List Poll) (p q : Poll)
    → timeout_ms * 2 ≤ p.elapsed_ms
    → timeout_ms * 2 ≤ q.elapsed_ms
    → wait_for_health timeout_ms extended (polls ++ p ∷ q ∷ []) ≢ waiting
unfolding wait_for_health readiness_decision
wait_for_health-ends timeout_ms extended [] p q h k e = ground arith
wait_for_health-ends timeout_ms extended (o ∷ polls) p q h k e = ground (
  arith,
  wait_for_health-ends timeout_ms extended polls p q h k,
  wait_for_health-ends timeout_ms true polls p q h k,
)

-- If all polls come before twice the timeout, the wait does not time out in them.
pub wait_for_health-patient :
    (timeout_ms : ℕ) (extended : Bool) (polls : List Poll)
    → All (λ (p : Poll). p.elapsed_ms < timeout_ms * 2) polls
    → wait_for_health timeout_ms extended polls ≢ timed_out
unfolding wait_for_health readiness_decision
wait_for_health-patient timeout_ms extended [] a e = ground arith
wait_for_health-patient timeout_ms extended (p ∷ polls) a e = ground (
  arith,
  wait_for_health-patient timeout_ms extended polls a.1,
  wait_for_health-patient timeout_ms true polls a.1,
  a.0,
)
