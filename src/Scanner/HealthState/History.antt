-- ===== src/Scanner/HealthState/History.antt =====
-- src/scanner/health-state.ts: the rows of one instance as the samples that src/scanner/downtime.ts
-- reads, and a run of probes of one service.
use excubitor.Prelude.{
  ℕ, ◌≡◌, refl, sym, ap, ◌∙◌, inl, inr, String, str_eq, eq_refl, List, [], ◌∷◌, ◌++◌, Option, none,
  some, true, if◌then◌else◌, arith, Bool-cases,
}
use mathlib.Core.List.{append-nil}
use excubitor.Scanner.Downtime.{LivenessSample}
use excubitor.Scanner.HealthState.{
  ServiceHealthResult, Instance, LivenessRow, Database, LatestLiveness, should_record_liveness,
  latest_row, has_instance, ensure_instance, update_instance, update_instances, find_instance,
  record_liveness, record_found, mark_ensured, mark_service_health, read_latest_liveness, Reason,
  is_newer,
}

-- `ok` and `probed_at` of the rows of an instance, in the order of insertion.
unfoldable pub samples_of : String → List LivenessRow → List LivenessSample
samples_of id [] = []
samples_of id (r ∷ rs) =
    let s : LivenessSample = record { t = r.probed_at; ok = r.ok } in
    if str_eq r.instance_id id then s ∷ samples_of id rs else samples_of id rs

abbrev pub as_latest : LivenessSample → LatestLiveness
as_latest s = record { ok = s.ok; probed_at = s.t }

-- `latest_row` on samples.
unfoldable pub latest_sample : Option LatestLiveness → List LivenessSample → Option LatestLiveness
latest_sample best [] = best
latest_sample best (s ∷ ss) =
    latest_sample (if is_newer best s.t then some (as_latest s) else best) ss

pub latest_row-samples_of :
    (id : String) (best : Option LatestLiveness) (rs : List LivenessRow)
    → latest_row id best rs ≡ latest_sample best (samples_of id rs)
unfolding latest_row samples_of latest_sample
latest_row-samples_of id best [] = refl
latest_row-samples_of id best (r ∷ rs) = elim (Bool-cases (str_eq r.instance_id id)) [
  | inl mine ↦ rw mine (
      latest_row-samples_of id
        (if is_newer best r.probed_at
          then some (record { ok = r.ok; probed_at = r.probed_at })
          else best)
        rs)
  | inr other ↦ rw other (latest_row-samples_of id best rs)
]

pub samples_of-append :
    (id : String) (rs us : List LivenessRow)
    → samples_of id (rs ++ us) ≡ samples_of id rs ++ samples_of id us
unfolding samples_of
samples_of-append id [] us = refl
samples_of-append id (r ∷ rs) us = ground (arith, samples_of-append id rs us)

find_instance-has_instance :
    (code : String) (is : List Instance) (id : String)
    → find_instance code is ≡ some id
    → has_instance code is ≡ true
unfolding find_instance has_instance
find_instance-has_instance code [] id h = cc
find_instance-has_instance code (i ∷ is) id h =
    ground (arith, find_instance-has_instance code is id)

find_instance-update_instances :
    (code : String) (result : ServiceHealthResult) (now : ℕ) (is : List Instance)
    → find_instance code (update_instances code result now is) ≡ find_instance code is
unfolding find_instance update_instances update_instance
find_instance-update_instances code result now [] = refl
find_instance-update_instances code result now (i ∷ is) =
    ground (arith, find_instance-update_instances code result now is)

-- Values sorted by time: the last one decides, for the query as for the scan.
module _ (id : String) (result : ServiceHealthResult) (now heartbeat_ms : ℕ) where
  abbrev pub new_sample : LivenessSample
  new_sample = record { t = now; ok = result.ok }

  -- The samples that a probe adds to those that are there.
  abbrev pub added : List LivenessSample → List LivenessSample
  added ss =
      if should_record_liveness (latest_sample none ss) result.ok now heartbeat_ms
      then new_sample ∷ []
      else []

  samples_of_one :
      (reason : Reason) (detail : Option String)
      → samples_of id (
          record {
            instance_id = id;
            probed_at = now;
            ok = result.ok;
            reason = reason;
            detail = detail;
          }
          ∷ [])
        ≡ new_sample ∷ []
  unfolding samples_of
  samples_of_one reason detail = rw (eq_refl id) refl

  record_liveness-samples_of :
      (db : Database)
      → samples_of id (record_liveness id result now heartbeat_ms db).0.liveness
        ≡ samples_of id db.liveness ++ added (samples_of id db.liveness)
  unfolding record_liveness read_latest_liveness
  record_liveness-samples_of db =
      let latest = latest_row-samples_of id none db.liveness in
      elim (Bool-cases (
        should_record_liveness (latest_sample none (samples_of id db.liveness)) result.ok now
          heartbeat_ms)) [
            | inl due ↦
                rw (latest, due)
                  (samples_of-append id db.liveness _
                    ∙ ap (λ u. samples_of id db.liveness ++ u)
                        (samples_of_one result.reason result.detail))
            | inr not_due ↦ rw (latest, not_due) (sym (append-nil (samples_of id db.liveness)))
          ]

module _ (fresh_id code : String) (result : ServiceHealthResult) (now heartbeat_ms : ℕ)
    (db : Database) (id : String) where
  ensure_instance_found :
      find_instance code db.instances ≡ some id → ensure_instance fresh_id code now db ≡ db
  unfolding ensure_instance
  ensure_instance_found h = ground (arith, find_instance-has_instance code db.instances id h)

  -- For a service with an instance, the probe writes the state of the rows and then the history.
  pub mark_service_health_found :
      find_instance code db.instances ≡ some id
      → mark_service_health fresh_id code result now heartbeat_ms db
        ≡ record_liveness id result now heartbeat_ms
            (record db { instances = update_instances code result now db.instances })
  unfolding mark_service_health mark_ensured
  mark_service_health_found h =
      ap (mark_ensured code result now heartbeat_ms) (ensure_instance_found h)
      ∙ ap
          (λ found.
            record_found found result now heartbeat_ms
              (record db { instances = update_instances code result now db.instances }))
          (find_instance-update_instances code result now db.instances ∙ h)

  pub mark_service_health-find_instance :
      find_instance code db.instances ≡ some id
      → find_instance code
          (mark_service_health fresh_id code result now heartbeat_ms db).0.instances
        ≡ some id
  unfolding record_liveness
  mark_service_health-find_instance h =
      let kept = find_instance-update_instances code result now db.instances ∙ h in
      rw (mark_service_health_found h) (ground arith)

  pub mark_service_health-samples_of :
      find_instance code db.instances ≡ some id
      → samples_of id (mark_service_health fresh_id code result now heartbeat_ms db).0.liveness
        ≡ samples_of id db.liveness ++ added id result now heartbeat_ms (samples_of id db.liveness)
  mark_service_health-samples_of h =
      ap (λ r. samples_of id r.0.liveness) (mark_service_health_found h)
      ∙ record_liveness-samples_of id result now heartbeat_ms
          (record db { instances = update_instances code result now db.instances })
