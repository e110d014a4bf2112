-- ===== src/Scanner/HealthState/Freshness.antt =====
-- src/scanner/health-state.ts: what the history says right after a probe.
use excubitor.Prelude.{
  ℕ, ◌+◌, ◌≤◌, ◌<◌, ◌≡◌, refl, ◌⊎◌, inl, inr, String, List, [], ◌∷◌, ◌++◌, Option, none, some, Bool,
  false, if◌then◌else◌, arith, Bool-cases,
}
use mathlib.Core.List.{append-nil}
use excubitor.Scanner.Downtime.{LivenessSample}
use excubitor.Scanner.HealthState.{
  ServiceHealthResult, Database, LatestLiveness, should_record_liveness, find_instance,
  read_latest_liveness, mark_service_health, is_newer,
}
use excubitor.Scanner.HealthState.History.{
  samples_of, latest_sample, as_latest, added, new_sample, latest_row-samples_of,
  mark_service_health-samples_of,
}

abbrev pub IsBy : Option LatestLiveness → ℕ → Type 0
IsBy none t = Unit {0}
IsBy (some l) t = l.probed_at ≤ t

latest_sample-snoc :
    (best : Option LatestLiveness) (ss : List LivenessSample) (s : LivenessSample)
    → IsBy (latest_sample best ss) s.t
    → latest_sample best (ss ++ s ∷ []) ≡ some (as_latest s)
unfolding latest_sample
latest_sample-snoc none [] s h = refl
latest_sample-snoc (some l) [] s h = ground arith
latest_sample-snoc best (u ∷ ss) s h =
    latest_sample-snoc (if is_newer best u.t then some (as_latest u) else best) ss s h

-- What the history must say of an outcome at `now`.
abbrev pub IsFresh : Option LatestLiveness → Bool → ℕ → ℕ → Type 0
IsFresh none ok now heartbeat_ms = ⊥
IsFresh (some l) ok now heartbeat_ms =
    (l.ok ≡ ok) × ((now < l.probed_at + heartbeat_ms) ⊎ (l.probed_at ≡ now))

should_record_liveness-IsFresh :
    (latest : Option LatestLiveness) (ok : Bool) (now heartbeat_ms : ℕ)
    → should_record_liveness latest ok now heartbeat_ms ≡ false
    → IsFresh latest ok now heartbeat_ms
unfolding should_record_liveness
should_record_liveness-IsFresh none ok now heartbeat_ms h = ground arith
should_record_liveness-IsFresh (some l) ok now heartbeat_ms h = ground arith

added-IsFresh :
    (id : String) (result : ServiceHealthResult) (now heartbeat_ms : ℕ) (ss : List LivenessSample)
    → IsBy (latest_sample none ss) now
    → IsFresh
        (latest_sample none (ss ++ added id result now heartbeat_ms ss))
        result.ok
        now
        heartbeat_ms
added-IsFresh id result now heartbeat_ms ss h =
    elim (Bool-cases (should_record_liveness (latest_sample none ss) result.ok now heartbeat_ms)) [
      | inl due ↦
          rw (due, latest_sample-snoc none ss (new_sample id result now heartbeat_ms) h)
            (refl, inr refl)
      | inr not_due ↦
          rw (not_due, append-nil ss)
            (should_record_liveness-IsFresh (latest_sample none ss) result.ok now heartbeat_ms
              not_due)
    ]

-- If a service has an instance whose last row is not later than now, then after a probe the last
-- row has the probe's outcome, and it is from now or less than a heartbeat old.
pub mark_service_health-IsFresh :
    (fresh_id code id : String) (result : ServiceHealthResult) (now heartbeat_ms : ℕ)
    (db : Database)
    → find_instance code db.instances ≡ some id
    → IsBy (read_latest_liveness db id) now
    → IsFresh
        (read_latest_liveness (mark_service_health fresh_id code result now heartbeat_ms db).0 id)
        result.ok
        now
        heartbeat_ms
unfolding read_latest_liveness
mark_service_health-IsFresh fresh_id code id result now heartbeat_ms db h before =
    let after = (mark_service_health fresh_id code result now heartbeat_ms db).0 in
    rw
      (
        latest_row-samples_of id none after.liveness,
        mark_service_health-samples_of fresh_id code result now heartbeat_ms db id h,
      )
      (added-IsFresh id result now heartbeat_ms (samples_of id db.liveness)
        (rw (← latest_row-samples_of id none db.liveness) before))
