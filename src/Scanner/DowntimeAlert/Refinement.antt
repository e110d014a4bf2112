-- ===== src/Scanner/DowntimeAlert/Refinement.antt =====
-- src/scanner/downtime-alert.ts: one tick over all services against the row of one service.
use excubitor.Prelude.{
  ℕ, ◌≡◌, refl, sym, ap, ◌∙◌, subst, String, str_eq, eq_iff, List, [], ◌∷◌, ◌++◌, Option, none,
  some, not, if◌then◌else◌, filter, arith, Option-cases, Bool-cases, inl, inr,
}
use mathlib.Core.List.{append-nil}
use excubitor.Prelude.Maps.{lookup, insert, lookup-insert}
use excubitor.Scanner.HealthState.{HealthObservation}
use excubitor.Scanner.DowntimeAlert.{
  AlertState, DiscordNotificationConfig, Alert, World, probe_failed, record_failed_probes,
  process_each, process_downtime_alerts,
}
use excubitor.Scanner.DowntimeAlert.Row.{
  calls_of, handle, handle_row, handle-IsMine, handle_absent, handle_other, IsSame,
}

-- The observation of a service.
unfoldable pub find : String → List HealthObservation → Option HealthObservation
find c [] = none
find c (o ∷ os) = if str_eq o.code c then some o else find c os

-- No service is observed twice.
abbrev pub IsDistinct : List HealthObservation → Type 0
IsDistinct [] = Unit {0}
IsDistinct (o ∷ os) = (find o.code os ≡ none) × IsDistinct os

-- The row after `recordFailedProbes`.
abbrev pub probed : Option HealthObservation → ℕ → Option AlertState → Option AlertState
probed none now row = row
probed (some o) now row = if o.ok then row else some (probe_failed now row)

record_failed_probes-absent :
    (c : String) (os : List HealthObservation) (now : ℕ) (table : List (String × AlertState))
    → find c os ≡ none
    → lookup c (record_failed_probes (filter (λ o. not o.ok) os) now table) ≡ lookup c table
unfolding find record_failed_probes
record_failed_probes-absent c [] now table h = refl
record_failed_probes-absent c (o ∷ os) now table h =
    let next = insert o.code (probe_failed now (lookup o.code table)) table in
    ground (
      arith,
      record_failed_probes-absent c os now table,
      record_failed_probes-absent c os now next,
      lookup-insert o.code c (probe_failed now (lookup o.code table)) table,
    )

record_failed_probes_lem :
    (c : String) (os : List HealthObservation) (now : ℕ) (table : List (String × AlertState))
    → IsDistinct os
    → lookup c (record_failed_probes (filter (λ o. not o.ok) os) now table)
      ≡ probed (find c os) now (lookup c table)
unfolding find record_failed_probes
record_failed_probes_lem c [] now table d = refl
record_failed_probes_lem c (o ∷ os) now table d =
    let next = insert o.code (probe_failed now (lookup o.code table)) table in
    let stored = lookup-insert o.code c (probe_failed now (lookup o.code table)) table in
    elim (Bool-cases (str_eq o.code c)) [
      | inl here ↦
          let e : o.code ≡ c = (eq_iff o.code c).0 here in
          let gone : find c os ≡ none = subst (λ k. find k os ≡ none) e d.0 in
          let read : lookup o.code table ≡ lookup c table = ap (λ k. lookup k table) e in
          ground (
            arith,
            here,
            stored,
            read,
            record_failed_probes-absent c os now table gone,
            record_failed_probes-absent c os now next gone,
          )
      | inr there ↦ ground (
        arith,
        there,
        stored,
        record_failed_probes_lem c os now table d.1,
        record_failed_probes_lem c os now next d.1,
      )
    ]

module _ (send : String → Alert → Option String) (now : ℕ)
    (config : Option DiscordNotificationConfig) where
  -- The row and the calls of a service after its observation, if there are both.
  unfoldable pub handled :
      Option HealthObservation → Option AlertState → Option AlertState × List (String × Alert)
  handled none row = (row, [])
  handled (some o) none = (none, [])
  handled (some o) (some s) =
      let (next, calls) = handle_row send now config o s in (some next, calls)

  -- One tick of one service: the row after `recordFailedProbes`, then its handler.
  unfoldable pub tick_row :
      Option HealthObservation → Option AlertState → Option AlertState × List (String × Alert)
  tick_row o row = handled o (probed o now row)

  abbrev pub IsRow : String → World → World → Option AlertState × List (String × Alert) → Type 0
  IsRow c w next row =
      (lookup c next.table ≡ row.0) × (calls_of c next.calls ≡ calls_of c w.calls ++ row.1)

  process_each_absent :
      (c : String) (os : List HealthObservation) (w : World)
      → find c os ≡ none
      → IsSame send now config c w (process_each send os now config w)
  unfolding find process_each handle
  process_each_absent c [] w h = (refl, refl)
  process_each_absent c (o ∷ os) w h = elim (Bool-cases (str_eq o.code c)) [
    | inl here ↦ absurd (ground (arith, here))
    | inr there ↦
        let (row, calls) = handle_other send now config c o w there in
        let (row', calls') =
          process_each_absent c os (handle send now config o w) (ground (arith, there)) in
        (row' ∙ row, calls' ∙ calls)
  ]

  handle_lem :
      (o : HealthObservation) (w : World)
      → IsRow o.code w (handle send now config o w) (handled (some o) (lookup o.code w.table))
  unfolding handled
  handle_lem o w = elim (Option-cases (lookup o.code w.table)) [
    | inl absent ↦
        rw (handle_absent send now config o w absent, absent)
          (refl, sym (append-nil (calls_of o.code w.calls)))
    | inr (s, found) ↦ rw found (handle-IsMine send now config o w s found)
  ]

  process_each_lem :
      (c : String) (os : List HealthObservation) (w : World)
      → IsDistinct os
      → IsRow c w (process_each send os now config w) (handled (find c os) (lookup c w.table))
  unfolding find process_each handle handled
  process_each_lem c [] w d = (refl, sym (append-nil (calls_of c w.calls)))
  process_each_lem c (o ∷ os) w d = elim (Bool-cases (str_eq o.code c)) [
    | inl here ↦
        let e : o.code ≡ c = (eq_iff o.code c).0 here in
        let gone : find c os ≡ none = subst (λ k. find k os ≡ none) e d.0 in
        let (row, calls) = process_each_absent c os (handle send now config o w) gone in
        let (row', calls') =
          subst (λ k. IsRow k w (handle send now config o w) (handled (some o) (lookup k w.table)))
            e (handle_lem o w) in
        rw here (row ∙ row', calls ∙ calls')
    | inr there ↦
        let (row, calls) = handle_other send now config c o w there in
        let (row', calls') = process_each_lem c os (handle send now config o w) d.1 in
        rw there (
          row' ∙ ap (λ r. (handled (find c os) r).0) row,
          calls'
              ∙ ap
                  (λ us.
                    us ++ (handled (find c os) (lookup c (handle send now config o w).table)).1)
                  calls
              ∙ ap (λ r. calls_of c w.calls ++ (handled (find c os) r).1) row,
        )
  ]

  -- If no service is observed twice, a tick over all services changes the row of each service, and
  -- calls the webhook about it, as the tick of that service alone does on its row.
  pub process_downtime_alerts-tick_row :
      (c : String) (os : List HealthObservation) (w : World)
      → IsDistinct os
      → IsRow c w
          (process_downtime_alerts send os now config w)
          (tick_row (find c os) (lookup c w.table))
  unfolding process_downtime_alerts tick_row
  process_downtime_alerts-tick_row c os w d =
      let table = record_failed_probes (filter (λ o. not o.ok) os) now w.table in
      let (row, calls) = process_each_lem c os (record w { table = table }) d in
      let first = record_failed_probes_lem c os now w.table d in
      (
        row ∙ ap (λ r. (handled (find c os) r).0) first,
        calls ∙ ap (λ r. calls_of c w.calls ++ (handled (find c os) r).1) first,
      )
