-- ===== src/LocalControl/ReadinessTests.antt =====
-- Waits for a backend on few polls, and the theorems at inputs that meet their hypotheses.
use excubitor.Prelude.{ℕ, ◌≡◌, ◌≢◌, refl, [], ◌∷◌, true, false, arith}
use excubitor.LocalControl.BackendReadiness.{
  Poll, ready, waiting, timed_out, wait_for_health, readiness_decision,
}
use excubitor.LocalControl.BackendReadiness.Deadline.{wait_for_health-ends, wait_for_health-patient}

abbrev unhealthy : ℕ → Poll
unhealthy elapsed = record { elapsed_ms = elapsed; process_alive = true; healthy = false }

-- Ready in the time by which the wait was extended.
wait_run :
    wait_for_health 90 false (
      unhealthy 50
      ∷ unhealthy 100
      ∷ record { elapsed_ms = 170; process_alive = true; healthy = true }
      ∷ [])
    ≡ ready
unfolding wait_for_health readiness_decision
wait_run = refl

wait_for_health-ends_example :
    wait_for_health 90 false (unhealthy 50 ∷ unhealthy 180 ∷ unhealthy 181 ∷ []) ≢ waiting
wait_for_health-ends_example =
    wait_for_health-ends 90 false (unhealthy 50 ∷ []) (unhealthy 180) (unhealthy 181) (omega arith)
      (omega arith)

wait_for_health-patient_example :
    wait_for_health 90 false (unhealthy 50 ∷ unhealthy 179 ∷ []) ≢ timed_out
wait_for_health-patient_example =
    wait_for_health-patient 90 false (unhealthy 50 ∷ unhealthy 179 ∷ [])
      (omega arith, (omega arith, tt))
