-- ===== src/Scanner/DowntimeAlert/Runs.antt =====
-- src/scanner/downtime-alert.ts: runs of ticks, in which a service stays down.
use excubitor.Prelude.{
  ℕ, ◌+◌, ◌-◌, ◌<◌, ◌≡◌, refl, ap, ◌∙◌, ◌⊎◌, inl, inr, String, List, [], ◌∷◌, ◌++◌, Option, none,
  some, true, false, arith, All,
}
use mathlib.Core.List.{append-nil}
use excubitor.Prelude.Maps.{lookup}
use excubitor.Scanner.HealthState.{HealthObservation}
use excubitor.Scanner.DowntimeAlert.{
  AlertState, DiscordNotificationConfig, Alert, service_down, World, is_truthy, too_soon,
  retry_interval_ms, failure_due, probe_failed, process_downtime_alerts, mark_attempt,
  mark_notified, record_failure, settle,
}
use excubitor.Scanner.DowntimeAlert.Row.{calls_of, handle_row, failure_row, attempt_row}
use excubitor.Scanner.DowntimeAlert.Refinement.{
  find, IsDistinct, tick_row, handled, process_downtime_alerts-tick_row,
}

-- The arguments of a call of `processDowntimeAlerts`.
pub record Tick : Type 0 where
  pub observations : List HealthObservation
  pub now : ℕ
  pub config : Option DiscordNotificationConfig

unfoldable pub run : (String → Alert → Option String) → List Tick → World → World
run send [] w = w
run send (t ∷ ticks) w =
    run send ticks (process_downtime_alerts send t.observations t.now t.config w)

abbrev pub IsFailing : Option HealthObservation → Type 0
IsFailing none = Unit {0}
IsFailing (some o) = o.ok ≡ false

-- No service is observed twice, and this one is not up.
abbrev pub IsDown : String → Tick → Type 0
IsDown c t = IsDistinct t.observations × IsFailing (find c t.observations)

-- The row forbids an alert in the ticks: one was sent, or one was tried and it is too soon for
-- another.
abbrev pub IsQuiet : List Tick → AlertState → Type 0
IsQuiet ticks s =
    (is_truthy s.notified_at ≡ true)
    ⊎ ((t : ℕ) × (s.last_attempt_at ≡ some t)
        × (0 < t)
        × All (λ k. k.now < t + retry_interval_ms) ticks)

failure_due_notified :
    (s : AlertState) (now : ℕ) (config : Option DiscordNotificationConfig)
    → is_truthy s.notified_at ≡ true
    → failure_due s now config ≡ none
unfolding failure_due
failure_due_notified s now none h = ground arith
failure_due_notified s now (some c) h = ground (arith, h)

failure_due_too_soon :
    (s : AlertState) (now : ℕ) (config : Option DiscordNotificationConfig) (t : ℕ)
    → s.last_attempt_at ≡ some t
    → 0 < t
    → now < t + retry_interval_ms
    → failure_due s now config ≡ none
unfolding failure_due too_soon
failure_due_too_soon s now none t e pos l = ground arith
failure_due_too_soon s now (some c) t e pos l = ground (arith, e)

failure_due-IsQuiet :
    (s : AlertState) (t : Tick) (ticks : List Tick)
    → IsQuiet (t ∷ ticks) s
    → failure_due s t.now t.config ≡ none
failure_due-IsQuiet s t ticks (inl sent) = failure_due_notified s t.now t.config sent
failure_due-IsQuiet s t ticks (inr (n, e, pos, le)) =
    failure_due_too_soon s t.now t.config n e pos le.0

IsQuiet-rest :
    (s : AlertState) (t : Tick) (ticks : List Tick) → IsQuiet (t ∷ ticks) s → IsQuiet ticks s
IsQuiet-rest s t ticks (inl sent) = inl sent
IsQuiet-rest s t ticks (inr (n, e, pos, le)) = inr (n, e, pos, le.1)

probe_failed-IsQuiet :
    (s : AlertState) (now : ℕ) (ticks : List Tick)
    → IsQuiet ticks s
    → IsQuiet ticks (probe_failed now (some s))
unfolding probe_failed
probe_failed-IsQuiet s now ticks q = q

-- The alert of `processFailure`.
abbrev pub alert_of : HealthObservation → ℕ → ℕ → Alert
alert_of o now since = service_down o.name o.code (now - since) since o.reason o.detail

module _ (send : String → Alert → Option String) where
  tick_row-IsQuiet :
      (o : Option HealthObservation) (t : Tick) (ticks : List Tick) (s : AlertState)
      → IsFailing o
      → IsQuiet (t ∷ ticks) s
      → (next : AlertState) × (tick_row send t.now t.config o (some s) ≡ (some next, []))
        × IsQuiet ticks next
  unfolding tick_row handled handle_row failure_row
  tick_row-IsQuiet none t ticks s f q = (s, refl, IsQuiet-rest s t ticks q)
  tick_row-IsQuiet (some o) t ticks s f q =
      let next = probe_failed t.now (some s) in
      let quiet = probe_failed-IsQuiet s t.now (t ∷ ticks) q in
      (next, rw (f, failure_due-IsQuiet next t ticks quiet) refl, IsQuiet-rest next t ticks quiet)

  run_quiet :
      (c : String) (ticks : List Tick) (w : World) (s : AlertState)
      → lookup c w.table ≡ some s
      → IsQuiet ticks s
      → All (IsDown c) ticks
      → calls_of c (run send ticks w).calls ≡ calls_of c w.calls
  unfolding run
  run_quiet c [] w s h q a = refl
  run_quiet c (t ∷ ticks) w s h q ((d, f), a) =
      let next = process_downtime_alerts send t.observations t.now t.config w in
      let (row, calls) =
        process_downtime_alerts-tick_row send t.now t.config c t.observations w d in
      let (s', e, q') = tick_row-IsQuiet (find c t.observations) t ticks s f q in
      let same = ap (tick_row send t.now t.config (find c t.observations)) h ∙ e in
      run_quiet c ticks next s' (row ∙ ap (λ r. r.0) same) q' a
      ∙ calls
      ∙ ap (λ r. calls_of c w.calls ++ r.1) same
      ∙ append-nil (calls_of c w.calls)

  -- The row and the calls of a tick in which an alert is due.
  tick_row_due :
      (o : HealthObservation) (t : Tick) (row : Option AlertState) (since : ℕ)
      (config : DiscordNotificationConfig)
      → o.ok ≡ false
      → failure_due (probe_failed t.now row) t.now t.config ≡ some (since, config)
      → tick_row send t.now t.config (some o) row ≡ (
        some (
            settle
              (send config.webhook_url (alert_of o t.now since))
              (mark_notified t.now)
              (mark_attempt t.now (probe_failed t.now row))),
        (config.webhook_url, alert_of o t.now since) ∷ [],
      )
  unfolding tick_row handled handle_row failure_row attempt_row
  tick_row_due o t row since config down due = rw (down, due) refl

  settle-IsQuiet :
      (answer : Option String) (now : ℕ) (ticks : List Tick) (s : AlertState)
      → 0 < now
      → (answer ≡ none) ⊎ All (λ k. k.now < now + retry_interval_ms) ticks
      → IsQuiet ticks (settle answer (mark_notified now) (mark_attempt now s))
  unfolding mark_notified mark_attempt record_failure
  settle-IsQuiet none now ticks s pos q = inl (ground arith)
  settle-IsQuiet (some message) now ticks s pos (inl sent) = absurd (ground arith)
  settle-IsQuiet (some message) now ticks s pos (inr soon) = inr (now, refl, pos, soon)

  -- If an alert is due for a service that is down, and it stays down, then the run calls the
  -- webhook about it with this alert and nothing else: for good if the webhook took the alert, and
  -- else for all ticks within the retry interval.
  pub run-calls_of :
      (c : String) (t : Tick) (ticks : List Tick) (w : World) (o : HealthObservation) (since : ℕ)
      (config : DiscordNotificationConfig)
      → IsDistinct t.observations
      → find c t.observations ≡ some o
      → o.ok ≡ false
      → failure_due (probe_failed t.now (lookup c w.table)) t.now t.config ≡ some (since, config)
      → 0 < t.now
      → All (IsDown c) ticks
      → (send config.webhook_url (alert_of o t.now since) ≡ none)
        ⊎ All (λ k. k.now < t.now + retry_interval_ms) ticks
      → calls_of c (run send (t ∷ ticks) w).calls
        ≡ calls_of c w.calls ++ (config.webhook_url, alert_of o t.now since) ∷ []
  unfolding run
  run-calls_of c t ticks w o since config d here down due pos a answer =
      let next = process_downtime_alerts send t.observations t.now t.config w in
      let (row, calls) =
        process_downtime_alerts-tick_row send t.now t.config c t.observations w d in
      let same =
        ap (λ f. tick_row send t.now t.config f (lookup c w.table)) here
        ∙ tick_row_due o t (lookup c w.table) since config down due in
      run_quiet c ticks next _ (row ∙ ap (λ r. r.0) same)
        (settle-IsQuiet (send config.webhook_url (alert_of o t.now since)) t.now ticks
          (probe_failed t.now (lookup c w.table)) pos answer)
        a
      ∙ calls
      ∙ ap (λ r. calls_of c w.calls ++ r.1) same
