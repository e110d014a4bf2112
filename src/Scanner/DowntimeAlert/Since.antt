-- ===== src/Scanner/DowntimeAlert/Since.antt =====
-- src/scanner/downtime-alert.ts: the start of an incident, as the alerts tell it.
use excubitor.Prelude.{
  ℕ, ◌+◌, ◌≤◌, ◌≡◌, refl, sym, ap, ◌∙◌, inl, inr, String, List, [], ◌∷◌, ◌++◌, Option, none, some,
  false, arith, All, All-append, Option-cases,
}
use mathlib.Core.List.{append-nil, append_assoc}
use excubitor.Prelude.Maps.{lookup}
use excubitor.Scanner.HealthState.{HealthObservation}
use excubitor.Scanner.DowntimeAlert.{
  AlertState, DiscordNotificationConfig, Alert, service_down, service_recovered, World,
  threshold_ms, failure_due, probe_failed, process_downtime_alerts, mark_attempt, mark_notified,
  record_failure, settle,
}
use excubitor.Scanner.DowntimeAlert.Row.{calls_of, handle_row, failure_row, attempt_row}
use excubitor.Scanner.DowntimeAlert.Refinement.{
  find, IsDistinct, tick_row, handled, process_downtime_alerts-tick_row,
}
use excubitor.Scanner.DowntimeAlert.Runs.{Tick, run, IsFailing, IsDown, alert_of}

-- The call is an alert that the service has been down since `since`, for at least `m` milliseconds.
abbrev pub IsAlertSince : ℕ → ℕ → String × Alert → Type 0
IsAlertSince since m (url, service_down name code long from reason detail) =
    (from ≡ since) × (m ≤ long)
IsAlertSince since m (url, service_recovered name code long until) = ⊥

failure_due-some :
    (s : AlertState) (now since since' : ℕ) (config : Option DiscordNotificationConfig)
    (c : DiscordNotificationConfig)
    → s.down_since ≡ some since
    → failure_due s now config ≡ some (since', c)
    → (since' ≡ since) × (since + threshold_ms config ≤ now)
unfolding failure_due
failure_due-some s now since since' none c e h = absurd (ground arith)
failure_due-some s now since since' (some d) c e h = ground (arith, e)

module _ (send : String → Alert → Option String) (m since : ℕ) where
  -- A tick of the service during the incident: the row keeps its start, and the calls tell it.
  abbrev IsIncident : Option AlertState × List (String × Alert) → Type 0
  IsIncident (none, calls) = ⊥
  IsIncident (some s, calls) = (s.down_since ≡ some since) × All (IsAlertSince since m) calls

  settle-down_since :
      (answer : Option String) (now : ℕ) (s : AlertState)
      → (settle answer (mark_notified now) (mark_attempt now s)).down_since ≡ s.down_since
  unfolding mark_notified mark_attempt record_failure
  settle-down_since none now s = refl
  settle-down_since (some message) now s = refl

  failure_row-IsIncident :
      (o : HealthObservation) (now : ℕ) (config : Option DiscordNotificationConfig) (s : AlertState)
      → s.down_since ≡ some since
      → m ≤ threshold_ms config
      → (let r = failure_row send now config o (failure_due s now config) s in
          IsIncident (some r.0, r.1))
  unfolding failure_row attempt_row
  failure_row-IsIncident o now config s e le = elim (Option-cases (failure_due s now config)) [
    | inl not_due ↦ rw not_due (e, tt)
    | inr ((from, c), due) ↦
        let (same, long) = failure_due-some s now since from config c e due in
        rw due (
          settle-down_since (send c.webhook_url (alert_of o now from)) now s ∙ e,
          ((same, omega arith), tt),
        )
  ]

  failing-IsIncident :
      (o : HealthObservation) (now : ℕ) (config : Option DiscordNotificationConfig)
      (row : Option AlertState)
      → o.ok ≡ false
      → (probe_failed now row).down_since ≡ some since
      → m ≤ threshold_ms config
      → IsIncident (tick_row send now config (some o) row)
  unfolding tick_row handled handle_row failure_row
  failing-IsIncident o now config row f e le =
      rw f (failure_row-IsIncident o now config (probe_failed now row) e le)

  tick_row-IsIncident :
      (o : Option HealthObservation) (t : Tick) (s : AlertState)
      → IsFailing o
      → s.down_since ≡ some since
      → m ≤ threshold_ms t.config
      → IsIncident (tick_row send t.now t.config o (some s))
  unfolding tick_row handled probe_failed
  tick_row-IsIncident none t s f e le = (e, tt)
  tick_row-IsIncident (some o) t s f e le =
      failing-IsIncident o t.now t.config (some s) f (ground (arith, e)) le

  -- The alerts of a run that starts within the incident.
  abbrev Told : String → World → World → Type 0
  Told c w next =
      (us : List (String × Alert)) × (calls_of c next.calls ≡ calls_of c w.calls ++ us)
      × All (IsAlertSince since m) us

  then_run :
      (c : String) (w next last : World) (row : Option AlertState × List (String × Alert))
      → calls_of c next.calls ≡ calls_of c w.calls ++ row.1
      → IsIncident row
      → Told c next last
      → Told c w last
  then_run c w next last (none, calls) e i told = elim i [ ]
  then_run c w next last (some s, calls) e i (us, e', a) = (
    calls ++ us,
    e' ∙ ap (λ vs. vs ++ us) e ∙ append_assoc (calls_of c w.calls) calls us,
    All-append (IsAlertSince since m) calls us i.1 a,
  )

  run_incident :
      (c : String) (ticks : List Tick) (w : World) (row : Option AlertState × List (String × Alert))
      → lookup c w.table ≡ row.0
      → IsIncident row
      → All (IsDown c) ticks
      → All (λ t. m ≤ threshold_ms t.config) ticks
      → Told c w (run send ticks w)
  unfolding run
  run_incident c [] w row h i a b = ([], sym (append-nil (calls_of c w.calls)), tt)
  run_incident c (t ∷ ticks) w (none, told) h i a b = elim i [ ]
  run_incident c (t ∷ ticks) w (some s, told) h i ((d, f), a) (le, b) =
      let after = tick_row send t.now t.config (find c t.observations) (some s) in
      let next = process_downtime_alerts send t.observations t.now t.config w in
      let (row, calls) =
        process_downtime_alerts-tick_row send t.now t.config c t.observations w d in
      let same = ap (tick_row send t.now t.config (find c t.observations)) h in
      let inside = tick_row-IsIncident (find c t.observations) t s f i.0 le in
      then_run c w next (run send ticks next) after
        (calls ∙ ap (λ r. calls_of c w.calls ++ r.1) same) inside
        (run_incident c ticks next after (row ∙ ap (λ r. r.0) same) inside a b)

-- Nothing is known of the service, or it is known to be up.
abbrev pub IsIdle : Option AlertState → Type 0
IsIdle none = Unit {0}
IsIdle (some s) = s.down_since ≡ none

idle-probe_failed :
    (now : ℕ) (row : Option AlertState) → IsIdle row → (probe_failed now row).down_since ≡ some now
unfolding probe_failed
idle-probe_failed now none i = refl
idle-probe_failed now (some s) i = ground (arith, i)

-- If a service is not known to be down, is found down in a tick and then never up, and the
-- thresholds are all at least `m` milliseconds, then each call of the webhook about it in the run
-- is an alert that it has been down since the time of that tick, for at least `m` milliseconds.
pub run_since :
    (send : String → Alert → Option String) (m : ℕ) (c : String) (t : Tick) (ticks : List Tick)
    (w : World) (o : HealthObservation)
    → IsDistinct t.observations
    → find c t.observations ≡ some o
    → o.ok ≡ false
    → IsIdle (lookup c w.table)
    → All (IsDown c) ticks
    → All (λ k. m ≤ threshold_ms k.config) (t ∷ ticks)
    → (us : List (String × Alert)) × (calls_of c (run send (t ∷ ticks) w).calls
        ≡ calls_of c w.calls ++ us)
      × All (IsAlertSince t.now m) us
unfolding run
run_since send m c t ticks w o d here down idle a (le, b) =
    let before = lookup c w.table in
    let after = tick_row send t.now t.config (some o) before in
    let next = process_downtime_alerts send t.observations t.now t.config w in
    let (row, calls) = process_downtime_alerts-tick_row send t.now t.config c t.observations w d in
    let same = ap (λ f. tick_row send t.now t.config f before) here in
    let inside =
      failing-IsIncident send m t.now o t.now t.config before down
        (idle-probe_failed t.now before idle) le in
    then_run send m t.now c w next (run send ticks next) after
      (calls ∙ ap (λ r. calls_of c w.calls ++ r.1) same) inside
      (run_incident send m t.now c ticks next after (row ∙ ap (λ r. r.0) same) inside a b)
