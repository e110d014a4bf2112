-- ===== src/Scanner/DowntimeAlert.antt =====
-- src/scanner/downtime-alert.ts. The table `health_alert_state` is an association list with the
-- service code as its key. The webhook is an argument: what it answers to an alert, `none` for
-- success and else the error's message. The calls of it are kept, in order, beside the table. An
-- alert has the values that its text shows.
pub mod Row
pub mod Refinement
pub mod Runs
pub mod Since
use excubitor.Prelude.{
  ℕ, ◌+◌, ◌-◌, ◌*◌, String, List, [], ◌∷◌, ◌++◌, Option, none, some, Bool, true, false, not, ltb,
  if◌then◌else◌, filter, ◌==◌,
}
use excubitor.Prelude.Maps.{lookup, insert, adjust}
use excubitor.Scanner.HealthState.{HealthObservation, Reason}

abbrev pub retry_interval_ms : ℕ
retry_interval_ms = 30000

-- A row, without its key and `updated_at`.
pub record AlertState : Type 0 where
  pub down_since : Option ℕ
  pub notified_at : Option ℕ
  pub last_probe_at : ℕ
  pub last_attempt_at : Option ℕ
  pub last_error : Option String

pub record DiscordNotificationConfig : Type 0 where
  pub enabled : Bool
  pub webhook_url : String
  pub notify_recovery : Bool
  pub downtime_threshold_sec : ℕ

pub data Alert : Type 0 where
  service_down : String → String → ℕ → ℕ → Reason → Option String → Alert  -- name, code, how long, since
  service_recovered : String → String → ℕ → ℕ → Alert  -- name, code, how long, until

-- The table and the calls of the webhook so far, each with its address.
pub record World : Type 0 where
  pub table : List (String × AlertState)
  pub calls : List (String × Alert)

-- What a test of a nullable number, such as `!state.down_since`, lets through: 0 counts as absent.
abbrev pub truthy : Option ℕ → Option ℕ
truthy none = none
truthy (some n) = if n == 0 then none else some n

abbrev pub is_truthy : Option ℕ → Bool
is_truthy o = elim (truthy o) [ none ↦ false | some n ↦ true ]

abbrev pub coalesce : Option ℕ → ℕ → Option ℕ
coalesce none n = some n
coalesce (some m) n = some m

-- The upsert of `recordFailedProbes`.
unfoldable pub probe_failed : ℕ → Option AlertState → AlertState
probe_failed now none = record {
  down_since = some now;
  notified_at = none;
  last_probe_at = now;
  last_attempt_at = none;
  last_error = none;
}
probe_failed now (some s) = record s { down_since = coalesce s.down_since now; last_probe_at = now }

unfoldable pub record_failed_probes :
    List HealthObservation → ℕ → List (String × AlertState) → List (String × AlertState)
record_failed_probes [] now table = table
record_failed_probes (o ∷ failures) now table =
    record_failed_probes failures now (insert o.code (probe_failed now (lookup o.code table)) table)

-- `(config?.downtimeThresholdSec ?? 60) * 1000`
abbrev pub threshold_ms : Option DiscordNotificationConfig → ℕ
threshold_ms none = 60 * 1000
threshold_ms (some config) = config.downtime_threshold_sec * 1000

-- `state.last_attempt_at && now - state.last_attempt_at < RETRY_INTERVAL_MS`
unfoldable pub too_soon : AlertState → ℕ → Bool
too_soon s now = elim (truthy s.last_attempt_at) [
  | none ↦ false
  | some t ↦ ltb now (t + retry_interval_ms)
]

-- The guards of `processFailure`: the start of the incident and the configuration, if an alert is
-- due.
unfoldable pub failure_due :
    AlertState → ℕ → Option DiscordNotificationConfig → Option (ℕ × DiscordNotificationConfig)
failure_due s now config = elim (truthy s.down_since) [
  | none ↦ none
  | some since ↦
      if is_truthy s.notified_at
      then none
      else if ltb now (since + threshold_ms config)
      then none
      else elim config [
        | none ↦ none
        | some c ↦ if not c.enabled then none else if too_soon s now then none else some (since, c)
      ]
]

unfoldable pub mark_attempt : ℕ → AlertState → AlertState
mark_attempt now s = record s { last_attempt_at = some now }

unfoldable pub record_failure : String → AlertState → AlertState
record_failure message s = record s { last_error = some message }

unfoldable pub mark_notified : ℕ → AlertState → AlertState
mark_notified now s = record s { notified_at = some now; last_error = none }

unfoldable pub clear_incident : ℕ → AlertState → AlertState
clear_incident now s = record {
  down_since = none;
  notified_at = none;
  last_probe_at = now;
  last_attempt_at = none;
  last_error = none;
}

-- The statement after the `send`: that of the `try`, or that of the `catch`.
abbrev pub settle : Option String → (AlertState → AlertState) → AlertState → AlertState
settle none done s = done s
settle (some message) done s = record_failure message s

-- The attempt that both handlers make: mark it, send, and record the outcome.
unfoldable pub attempt :
    (String → Alert → Option String)
    → String
    → ℕ
    → String
    → Alert
    → (AlertState → AlertState)
    → World
    → World
attempt send code now url alert done w =
    let marked = adjust code (mark_attempt now) w.table in
    record w {
      table = adjust code (settle (send url alert) done) marked;
      calls = w.calls ++ (url, alert) ∷ [];
    }

-- `processFailure` after its guards.
unfoldable pub send_failure :
    (String → Alert → Option String)
    → HealthObservation
    → ℕ
    → Option (ℕ × DiscordNotificationConfig)
    → World
    → World
send_failure send o now none w = w
send_failure send o now (some (since, c)) w =
    attempt send o.code now c.webhook_url
      (service_down o.name o.code (now - since) since o.reason o.detail) (mark_notified now) w

unfoldable pub process_failure :
    (String → Alert → Option String)
    → HealthObservation
    → ℕ
    → Option DiscordNotificationConfig
    → World
    → World
process_failure send o now config w = elim (lookup o.code w.table) [
  | none ↦ w
  | some s ↦ send_failure send o now (failure_due s now config) w
]

-- What `processRecovery` does with a row.
pub data Recovery : Type 0 where
  ignore : Recovery
  clear : Recovery
  announce : ℕ → DiscordNotificationConfig → Recovery

-- `!state.notified_at || !config?.enabled || !config.notifyRecovery`, else the configuration
unfoldable pub announcing :
    AlertState → Option DiscordNotificationConfig → Option DiscordNotificationConfig
announcing s none = none
announcing s (some c) =
    if not (is_truthy s.notified_at)
    then none
    else if not c.enabled
    then none
    else if not c.notify_recovery
    then none
    else some c

unfoldable pub recovery : AlertState → ℕ → Option DiscordNotificationConfig → Recovery
recovery s now config = elim (truthy s.down_since) [
  | none ↦ ignore
  | some since ↦ elim (announcing s config) [
    | none ↦ clear
    | some c ↦ if too_soon s now then ignore else announce since c
  ]
]

-- `processRecovery` after its guards.
unfoldable pub send_recovery :
    (String → Alert → Option String) → HealthObservation → ℕ → Recovery → World → World
send_recovery send o now ignore w = w
send_recovery send o now clear w = record w { table = adjust o.code (clear_incident now) w.table }
send_recovery send o now (announce since c) w =
    attempt send o.code now c.webhook_url (service_recovered o.name o.code (now - since) now)
      (clear_incident now) w

unfoldable pub process_recovery :
    (String → Alert → Option String)
    → HealthObservation
    → ℕ
    → Option DiscordNotificationConfig
    → World
    → World
process_recovery send o now config w = elim (lookup o.code w.table) [
  | none ↦ w
  | some s ↦ send_recovery send o now (recovery s now config) w
]

unfoldable pub process_each :
    (String → Alert → Option String)
    → List HealthObservation
    → ℕ
    → Option DiscordNotificationConfig
    → World
    → World
process_each send [] now config w = w
process_each send (o ∷ os) now config w =
    process_each send os now config
      (if o.ok then process_recovery send o now config w else process_failure send o now config w)

unfoldable pub process_downtime_alerts :
    (String → Alert → Option String)
    → List HealthObservation
    → ℕ
    → Option DiscordNotificationConfig
    → World
    → World
process_downtime_alerts send observations now config w =
    let failures = filter (λ (o : HealthObservation). not o.ok) observations in
    process_each send observations now config
      (record w { table = record_failed_probes failures now w.table })
