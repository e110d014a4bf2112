-- ===== src/Scanner/Tests.antt =====
-- The downtime of small histories, and the theorems at inputs that meet their hypotheses.
use excubitor.Prelude.{ℕ, ◌≡◌, refl, ◌++◌, List, [], ◌∷◌, none, some, Bool, true, false, arith, min}
use excubitor.Prelude.Sorting.{IsSorted}
use excubitor.Scanner.Downtime.{LivenessSample, compute_downtime_summary}
use excubitor.Scanner.Downtime.Measure.{key, state_at, count_down, compute_downtime_summary_measure}
use excubitor.Scanner.Downtime.{samples_until}
use excubitor.Scanner.HealthState.{
  Reason, ServiceHealthResult, Database, Instance, find_instance, mark_service_health,
  read_latest_liveness, latest_row, mark_ensured, ensure_instance, update_instances,
  update_instance, record_liveness, should_record_liveness, has_instance,
}
use excubitor.Scanner.HealthState.History.{samples_of}
use excubitor.Scanner.HealthState.Compression.{
  probe_all, probe_samples, compute_downtime_summary-probe_all,
}
use excubitor.Scanner.HealthState.Freshness.{IsFresh, mark_service_health-IsFresh}

abbrev at : ℕ → Bool → LivenessSample
at t ok = record { t = t; ok = ok }

abbrev history : List LivenessSample
history = at 5 true ∷ at 12 false ∷ at 15 false ∷ at 18 true ∷ at 30 false ∷ []

downtime_run : (compute_downtime_summary history 10 40 30).downtime_ms ≡ 16
unfolding compute_downtime_summary
downtime_run = refl

incidents_run : (compute_downtime_summary history 10 40 30).incidents ≡ 2
unfolding compute_downtime_summary
incidents_run = refl

compute_downtime_summary_measure_example :
    (compute_downtime_summary history 10 40 30).downtime_ms
    ≡ min (count_down (state_at none (samples_until 40 history)) 10 30) 30
compute_downtime_summary_measure_example = compute_downtime_summary_measure history 10 40 30

abbrev outcome : Bool → ServiceHealthResult
outcome ok = record {
  ok = ok;
  reason = Reason.http;
  detail = none;
  reported_version = some "1.2.0";
}

abbrev row : Instance
row = record {
  id = "i1";
  service = "api";
  state = "pending";
  last_seen_at = none;
  reported_version = none;
  updated_at = 0;
}

abbrev database : Database
database = record {
  services = "api" ∷ [];
  instances = row ∷ [];
  liveness =
      record { instance_id = "i1"; probed_at = 1; ok = true; reason = Reason.http; detail = none }
      ∷ [];
}

abbrev probes : List (ServiceHealthResult × ℕ)
probes = (outcome true, 3) ∷ (outcome false, 5) ∷ (outcome false, 6) ∷ (outcome true, 9) ∷ []

abbrev final : Database
final = probe_all "i2" "api" 100 probes database

found : find_instance "api" database.instances ≡ some "i1"
unfolding find_instance
found = refl

in_order : IsSorted key (samples_of "i1" database.liveness ++ probe_samples probes)
unfolding samples_of probe_samples
in_order = ground arith

recorded_run : samples_of "i1" final.liveness ≡ at 1 true ∷ at 5 false ∷ at 9 true ∷ []
unfolding samples_of probe_all mark_service_health mark_ensured ensure_instance has_instance
    update_instances update_instance find_instance record_liveness read_latest_liveness latest_row
    should_record_liveness
recorded_run = refl

compute_downtime_summary-probe_all_example :
    (compute_downtime_summary (samples_of "i1" final.liveness) 0 20 20).downtime_ms
    ≡ (compute_downtime_summary
        (samples_of "i1" database.liveness ++ probe_samples probes)
        0
        20
        20).downtime_ms
compute_downtime_summary-probe_all_example =
    compute_downtime_summary-probe_all "i2" "api" "i1" 100 probes database 0 20 20 found in_order

mark_service_health-IsFresh_example :
    IsFresh
      (read_latest_liveness (mark_service_health "i2" "api" (outcome true) 3 100 database).0 "i1")
      true
      3
      100
unfolding read_latest_liveness latest_row
mark_service_health-IsFresh_example =
    mark_service_health-IsFresh "i2" "api" "i1" (outcome true) 3 100 database found (omega arith)
