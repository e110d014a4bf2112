-- ===== src/Scanner/AlertTests.antt =====
-- Downtime alerts on small runs, and the theorems at inputs that meet their hypotheses.
use excubitor.Prelude.{
  ℕ, ◌≡◌, refl, String, List, [], ◌∷◌, Option, none, some, Bool, true, false, arith, inl, All,
}
use excubitor.Prelude.Maps.{lookup}
use excubitor.Scanner.HealthState.{Reason, HealthObservation}
use excubitor.Scanner.DowntimeAlert.{
  AlertState, DiscordNotificationConfig, Alert, World, process_downtime_alerts, failure_due,
  probe_failed, too_soon,
}
use excubitor.Scanner.DowntimeAlert.Row.{calls_of}
use excubitor.Scanner.DowntimeAlert.Refinement.{
  find, IsDistinct, tick_row, process_downtime_alerts-tick_row,
}
use excubitor.Scanner.DowntimeAlert.Runs.{Tick, run, IsDown, alert_of, run-calls_of}
use excubitor.Scanner.DowntimeAlert.Since.{IsAlertSince, run_since}

abbrev delivered : String → Alert → Option String
delivered url alert = none

abbrev seen : String → Bool → HealthObservation
seen code ok = record { code = code; name = code; ok = ok; reason = Reason.tcp; detail = none }

abbrev both_down : List HealthObservation
both_down = seen "api" false ∷ seen "web" true ∷ []

abbrev config : DiscordNotificationConfig
config = record {
  enabled = true;
  webhook_url = "https://hook";
  notify_recovery = true;
  downtime_threshold_sec = 60;
}

abbrev tick_at : ℕ → Tick
tick_at now = record { observations = both_down; now = now; config = some config }

abbrev fresh : World
fresh = record { table = []; calls = [] }

-- The service has been down since 1000.
abbrev since_start : AlertState
since_start = record {
  down_since = some 1000;
  notified_at = none;
  last_probe_at = 1000;
  last_attempt_at = none;
  last_error = none;
}

abbrev down_world : World
down_world = record { table = ("api", since_start) ∷ []; calls = [] }

distinct : IsDistinct both_down
unfolding find
distinct = (refl, (refl, tt))

down : (now : ℕ) → IsDown "api" (tick_at now)
unfolding find
down now = (distinct, refl)

here : find "api" both_down ≡ some (seen "api" false)
unfolding find
here = refl

process_downtime_alerts-tick_row_example :
    lookup "api" (process_downtime_alerts delivered both_down 70000 (some config) down_world).table
    ≡ (tick_row delivered 70000
        (some config)
        (find "api" both_down)
        (lookup "api" down_world.table)).0
process_downtime_alerts-tick_row_example =
    (process_downtime_alerts-tick_row delivered 70000 (some config) "api" both_down down_world
      distinct).0

due :
    failure_due (probe_failed 70000 (lookup "api" down_world.table)) 70000 (some config)
    ≡ some (1000, config)
unfolding failure_due probe_failed lookup too_soon
due = refl

run-calls_of_example :
    calls_of "api"
      (run delivered (tick_at 70000 ∷ tick_at 75000 ∷ tick_at 200000 ∷ []) down_world).calls
    ≡ ("https://hook", alert_of (seen "api" false) 70000 1000) ∷ []
run-calls_of_example =
    run-calls_of delivered "api" (tick_at 70000) (tick_at 75000 ∷ tick_at 200000 ∷ []) down_world
      (seen "api" false) 1000 config distinct here refl due (omega arith)
      (down 75000, (down 200000, tt)) (inl refl)

run_since_example :
    (us : List (String × Alert)) × (calls_of "api"
        (run delivered (tick_at 1000 ∷ tick_at 70000 ∷ []) fresh).calls
      ≡ us)
    × All (IsAlertSince 1000 60000) us
unfolding lookup
run_since_example =
    run_since delivered 60000 "api" (tick_at 1000) (tick_at 70000 ∷ []) fresh (seen "api" false)
      distinct here refl tt (down 70000, tt) (omega arith, (omega arith, tt))
