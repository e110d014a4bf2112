-- ===== src/Scanner/DowntimeAlert/Row.antt =====
-- src/scanner/downtime-alert.ts, seen from one service: what a tick does to its row and which calls
-- of the webhook it makes, without the table and without the other services.
use excubitor.Prelude.{
  ℕ, ◌-◌, ◌≡◌, refl, sym, ap, ◌∙◌, String, str_eq, eq_iff, List, [], ◌∷◌, ◌++◌, Option, none, some,
  Bool, true, false, if◌then◌else◌, filter, filter-append, arith, Option-cases, inl, inr,
}
use mathlib.Core.List.{append-nil}
use excubitor.Prelude.Maps.{lookup, adjust, lookup-adjust}
use excubitor.Scanner.HealthState.{HealthObservation}
use excubitor.Scanner.DowntimeAlert.{
  AlertState, DiscordNotificationConfig, Alert, service_down, service_recovered, World, Recovery,
  ignore, clear, announce, failure_due, recovery, mark_attempt, mark_notified, settle,
  clear_incident, attempt, send_failure, send_recovery, process_failure, process_recovery,
}

abbrev pub code_of : Alert → String
code_of (service_down name code long since reason detail) = code
code_of (service_recovered name code long until) = code

-- The calls about one service.
abbrev pub calls_of : String → List (String × Alert) → List (String × Alert)
calls_of c calls = filter (λ (call : String × Alert). str_eq (code_of call.1) c) calls

calls_of_mine :
    (c url : String) (alert : Alert)
    → code_of alert ≡ c
    → calls_of c ((url, alert) ∷ []) ≡ (url, alert) ∷ []
calls_of_mine c url alert e = ground (arith, eq_iff (code_of alert) c)

calls_of_other :
    (c url : String) (alert : Alert)
    → str_eq (code_of alert) c ≡ false
    → calls_of c ((url, alert) ∷ []) ≡ []
calls_of_other c url alert e = ground (arith, e)

module _ (send : String → Alert → Option String) (now : ℕ)
    (config : Option DiscordNotificationConfig) where
  unfoldable pub attempt_row :
      String → Alert → (AlertState → AlertState) → AlertState → AlertState × List (String × Alert)
  attempt_row url alert done s =
      (settle (send url alert) done (mark_attempt now s), (url, alert) ∷ [])

  unfoldable pub failure_row :
      HealthObservation
      → Option (ℕ × DiscordNotificationConfig)
      → AlertState
      → AlertState × List (String × Alert)
  failure_row o none s = (s, [])
  failure_row o (some (since, c)) s =
      attempt_row c.webhook_url (service_down o.name o.code (now - since) since o.reason o.detail)
        (mark_notified now) s

  unfoldable pub recovery_row :
      HealthObservation → Recovery → AlertState → AlertState × List (String × Alert)
  recovery_row o ignore s = (s, [])
  recovery_row o clear s = (clear_incident now s, [])
  recovery_row o (announce since c) s =
      attempt_row c.webhook_url (service_recovered o.name o.code (now - since) now)
        (clear_incident now) s

  unfoldable pub handle_row : HealthObservation → AlertState → AlertState × List (String × Alert)
  handle_row o s =
      if o.ok
      then recovery_row o (recovery s now config) s
      else failure_row o (failure_due s now config) s

  unfoldable pub handle : HealthObservation → World → World
  handle o w =
      if o.ok then process_recovery send o now config w else process_failure send o now config w

  attempt_mine :
      (c url : String) (alert : Alert) (done : AlertState → AlertState) (w : World) (s : AlertState)
      → code_of alert ≡ c
      → lookup c w.table ≡ some s
      → (lookup c (attempt send c now url alert done w).table
          ≡ some (attempt_row url alert done s).0)
        × (calls_of c (attempt send c now url alert done w).calls
            ≡ calls_of c w.calls ++ (attempt_row url alert done s).1)
  unfolding attempt attempt_row
  attempt_mine c url alert done w s e h = (
    ground (
      arith,
      lookup-adjust c c (settle (send url alert) done) (adjust c (mark_attempt now) w.table),
      lookup-adjust c c (mark_attempt now) w.table,
      eq_iff c c,
    ),
    filter-append (λ (call : String × Alert). str_eq (code_of call.1) c) w.calls ((url, alert) ∷ [])
        ∙ ap (λ us. calls_of c w.calls ++ us) (calls_of_mine c url alert e),
  )

  attempt_other :
      (c code url : String) (alert : Alert) (done : AlertState → AlertState) (w : World)
      → code_of alert ≡ code
      → str_eq code c ≡ false
      → (lookup c (attempt send code now url alert done w).table ≡ lookup c w.table)
        × (calls_of c (attempt send code now url alert done w).calls ≡ calls_of c w.calls)
  unfolding attempt
  attempt_other c code url alert done w e h = (
    ground (
      arith,
      lookup-adjust code c (settle (send url alert) done) (adjust code (mark_attempt now) w.table),
      lookup-adjust code c (mark_attempt now) w.table,
    ),
    filter-append (λ (call : String × Alert). str_eq (code_of call.1) c) w.calls ((url, alert) ∷ [])
        ∙ ap (λ us. calls_of c w.calls ++ us)
            (calls_of_other c url alert (ap (λ d. str_eq d c) e ∙ h))
        ∙ append-nil (calls_of c w.calls),
  )

  -- What a step must do to the row and the calls of its service.
  abbrev pub IsMine : String → World → World → AlertState × List (String × Alert) → Type 0
  IsMine c w next row =
      (lookup c next.table ≡ some row.0) × (calls_of c next.calls ≡ calls_of c w.calls ++ row.1)

  abbrev pub IsSame : String → World → World → Type 0
  IsSame c w next =
      (lookup c next.table ≡ lookup c w.table) × (calls_of c next.calls ≡ calls_of c w.calls)

  send_failure-IsMine :
      (o : HealthObservation) (due : Option (ℕ × DiscordNotificationConfig)) (w : World)
      (s : AlertState)
      → lookup o.code w.table ≡ some s
      → IsMine o.code w (send_failure send o now due w) (failure_row o due s)
  unfolding send_failure failure_row
  send_failure-IsMine o none w s h = (h, sym (append-nil (calls_of o.code w.calls)))
  send_failure-IsMine o (some (since, c)) w s h =
      attempt_mine o.code c.webhook_url _ (mark_notified now) w s refl h

  send_recovery-IsMine :
      (o : HealthObservation) (r : Recovery) (w : World) (s : AlertState)
      → lookup o.code w.table ≡ some s
      → IsMine o.code w (send_recovery send o now r w) (recovery_row o r s)
  unfolding send_recovery recovery_row
  send_recovery-IsMine o ignore w s h = (h, sym (append-nil (calls_of o.code w.calls)))
  send_recovery-IsMine o clear w s h = (
    ground (arith, lookup-adjust o.code o.code (clear_incident now) w.table, eq_iff o.code o.code),
    sym (append-nil (calls_of o.code w.calls)),
  )
  send_recovery-IsMine o (announce since c) w s h =
      attempt_mine o.code c.webhook_url _ (clear_incident now) w s refl h

  send_failure_other :
      (c : String) (o : HealthObservation) (due : Option (ℕ × DiscordNotificationConfig))
      (w : World)
      → str_eq o.code c ≡ false
      → IsSame c w (send_failure send o now due w)
  unfolding send_failure
  send_failure_other c o none w h = (refl, refl)
  send_failure_other c o (some (since, d)) w h =
      attempt_other c o.code d.webhook_url _ (mark_notified now) w refl h

  send_recovery_other :
      (c : String) (o : HealthObservation) (r : Recovery) (w : World)
      → str_eq o.code c ≡ false
      → IsSame c w (send_recovery send o now r w)
  unfolding send_recovery
  send_recovery_other c o ignore w h = (refl, refl)
  send_recovery_other c o clear w h =
      (ground (arith, lookup-adjust o.code c (clear_incident now) w.table), refl)
  send_recovery_other c o (announce since d) w h =
      attempt_other c o.code d.webhook_url _ (clear_incident now) w refl h

  either-IsMine :
      (b : Bool) (c : String) (w up down : World) (p q : AlertState × List (String × Alert))
      → IsMine c w up p
      → IsMine c w down q
      → IsMine c w (if b then up else down) (if b then p else q)
  either-IsMine true c w up down p q r f = r
  either-IsMine false c w up down p q r f = f

  either-IsSame :
      (b : Bool) (c : String) (w up down : World)
      → IsSame c w up
      → IsSame c w down
      → IsSame c w (if b then up else down)
  either-IsSame true c w up down r f = r
  either-IsSame false c w up down r f = f

  handle_found :
      (o : HealthObservation) (w : World) (s : AlertState)
      → lookup o.code w.table ≡ some s
      → handle o w ≡ (
          if o.ok
          then send_recovery send o now (recovery s now config) w
          else send_failure send o now (failure_due s now config) w)
  unfolding handle process_recovery process_failure
  handle_found o w s h = ground (arith, h)

  -- Without a row, an observation does nothing.
  pub handle_absent :
      (o : HealthObservation) (w : World) → lookup o.code w.table ≡ none → handle o w ≡ w
  unfolding handle process_recovery process_failure
  handle_absent o w h = ground (arith, h)

  -- A service's observation does to its row and its calls what `handle_row` says.
  pub handle-IsMine :
      (o : HealthObservation) (w : World) (s : AlertState)
      → lookup o.code w.table ≡ some s
      → IsMine o.code w (handle o w) (handle_row o s)
  unfolding handle_row
  handle-IsMine o w s h =
      let r = send_recovery-IsMine o (recovery s now config) w s h in
      let f = send_failure-IsMine o (failure_due s now config) w s h in
      rw (handle_found o w s h) (either-IsMine o.ok o.code w _ _ _ _ r f)

  -- To the other services it does nothing.
  pub handle_other :
      (c : String) (o : HealthObservation) (w : World)
      → str_eq o.code c ≡ false
      → IsSame c w (handle o w)
  handle_other c o w h = elim (Option-cases (lookup o.code w.table)) [
    | inl absent ↦ rw (handle_absent o w absent) (refl, refl)
    | inr (s, here) ↦ rw (handle_found o w s here) (
        either-IsSame o.ok c w _ _ (send_recovery_other c o (recovery s now config) w h)
          (send_failure_other c o (failure_due s now config) w h))
  ]
