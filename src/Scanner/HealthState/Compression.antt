-- ===== src/Scanner/HealthState/Compression.antt =====
-- src/scanner/health-state.ts: a run of probes of one service, and the downtime that
-- src/scanner/downtime.ts reads off the rows it leaves.
use excubitor.Prelude.{
  ℕ, ◌-◌, ◌≤◌, ◌≡◌, refl, sym, ap, subst, ◌∙◌, inl, inr, String, List, [], ◌∷◌, ◌++◌, Option, none,
  some, Bool, true, false, leb, if◌then◌else◌, min, filter, arith, Bool-cases, All, All-mono,
  All-of,
}
use mathlib.Core.List.{append-nil, append_assoc}
use excubitor.Prelude.Sorting.{
  IsSorted, IsSorted-skip, IsSorted-before, IsSorted-left, sort_by_of_IsSorted, filter-IsSorted,
}
use excubitor.Scanner.Downtime.{LivenessSample, samples_until, compute_downtime_summary}
use excubitor.Scanner.Downtime.Measure.{
  state_at, key, count_down-congr, compute_downtime_summary_measure,
}
use excubitor.Scanner.HealthState.{
  ServiceHealthResult, Database, LatestLiveness, should_record_liveness, find_instance,
  mark_service_health,
}
use excubitor.Scanner.HealthState.History.{
  samples_of, latest_sample, as_latest, added, new_sample, mark_service_health-find_instance,
  mark_service_health-samples_of,
}

-- The probes of one service, in order.
unfoldable pub probe_all :
    String → String → ℕ → List (ServiceHealthResult × ℕ) → Database → Database
probe_all fresh_id code heartbeat_ms [] db = db
probe_all fresh_id code heartbeat_ms ((result, now) ∷ probes) db =
    probe_all fresh_id code heartbeat_ms probes
      (mark_service_health fresh_id code result now heartbeat_ms db).0

unfoldable pub probe_samples : List (ServiceHealthResult × ℕ) → List LivenessSample
probe_samples [] = []
probe_samples ((result, now) ∷ probes) = record { t = now; ok = result.ok } ∷ probe_samples probes

abbrev ok_of : Option LatestLiveness → Option Bool
ok_of none = none
ok_of (some l) = some l.ok

abbrev IsUpTo : Option LatestLiveness → ℕ → Type 0
IsUpTo none t = Unit {0}
IsUpTo (some l) t = l.probed_at ≤ t

pub state_at-append :
    (state : Option Bool) (ss us : List LivenessSample) (t : ℕ)
    → state_at state (ss ++ us) t ≡ state_at (state_at state ss t) us t
unfolding state_at
state_at-append state [] us t = refl
state_at-append state (s ∷ ss) us t =
    state_at-append (if leb s.t t then some s.ok else state) ss us t

-- The query finds the state that holds once all samples have passed.
state_at_settled :
    (ss : List LivenessSample) (best : Option LatestLiveness) (t : ℕ)
    → IsSorted key ss
    → All (λ s. IsUpTo best s.t) ss
    → All (λ s. s.t ≤ t) ss
    → state_at (ok_of best) ss t ≡ ok_of (latest_sample best ss)
unfolding state_at latest_sample
state_at_settled [] best t sorted b a = refl
state_at_settled (s ∷ ss) none t sorted b a =
    ground (arith, a.0, state_at_settled ss (some (as_latest s)) t sorted.1 sorted.0 a.1)
state_at_settled (s ∷ ss) (some l) t sorted b a =
    ground (arith, a.0, b.0, state_at_settled ss (some (as_latest s)) t sorted.1 sorted.0 a.1)

state_at_one :
    (state : Option Bool) (s : LivenessSample) (t : ℕ)
    → leb s.t t ≡ true
    → state_at state (s ∷ []) t ≡ some s.ok
unfolding state_at
state_at_one state s t h = ground (arith, h)

state_at_ahead :
    (state : Option Bool) (s : LivenessSample) (t : ℕ)
    → leb s.t t ≡ false
    → state_at state (s ∷ []) t ≡ state_at state [] t
unfolding state_at
state_at_ahead state s t h = ground (arith, h)

should_record_liveness-false :
    (latest : Option LatestLiveness) (ok : Bool) (now heartbeat_ms : ℕ)
    → should_record_liveness latest ok now heartbeat_ms ≡ false
    → ok_of latest ≡ some ok
unfolding should_record_liveness
should_record_liveness-false none ok now heartbeat_ms h = cc
should_record_liveness-false (some l) ok now heartbeat_ms h = ground arith

-- Whether the sample is recorded or not, the state is the same at all times.
state_at-added :
    (id : String) (result : ServiceHealthResult) (now heartbeat_ms : ℕ) (ss : List LivenessSample)
    (t : ℕ)
    → IsSorted key ss
    → All (λ s. s.t ≤ now) ss
    → state_at none (ss ++ added id result now heartbeat_ms ss) t
      ≡ state_at none (ss ++ new_sample id result now heartbeat_ms ∷ []) t
unfolding state_at
state_at-added id result now heartbeat_ms ss t sorted a =
    let latest = latest_sample none ss in
    let mine = new_sample id result now heartbeat_ms in
    elim (Bool-cases (should_record_liveness latest result.ok now heartbeat_ms)) [
      | inl due ↦ rw due refl
      | inr not_due ↦ rw not_due (elim (Bool-cases (leb now t)) [
        | inl passed ↦
            let same : state_at none ss t ≡ some result.ok =
              state_at_settled ss none t sorted (All-of (λ s. tt) ss)
                (All-mono (λ s h. ground (arith, passed)) ss a)
              ∙ should_record_liveness-false latest result.ok now heartbeat_ms not_due in
            state_at-append none ss [] t
            ∙ same
            ∙ sym (
                state_at-append none ss (mine ∷ []) t
                ∙ state_at_one (state_at none ss t) mine t passed)
        | inr ahead ↦
            state_at-append none ss [] t
            ∙ sym (
                state_at-append none ss (mine ∷ []) t
                ∙ state_at_ahead (state_at none ss t) mine t ahead)
      ])
    ]

added-IsSorted :
    (id : String) (result : ServiceHealthResult) (now heartbeat_ms : ℕ)
    (ss rest : List LivenessSample)
    → IsSorted key (ss ++ new_sample id result now heartbeat_ms ∷ rest)
    → IsSorted key ((ss ++ added id result now heartbeat_ms ss) ++ rest)
added-IsSorted id result now heartbeat_ms ss rest sorted =
    let mine = new_sample id result now heartbeat_ms in
    elim (Bool-cases (should_record_liveness (latest_sample none ss) result.ok now heartbeat_ms)) [
      | inl due ↦ rw (due, append_assoc ss (mine ∷ []) rest) sorted
      | inr not_due ↦ rw (not_due, append-nil ss) (IsSorted-skip key ss mine rest sorted)
    ]

-- The rows that a run of probes leaves say the same, at every time, as all its samples.
pub probe_all-state_at :
    (fresh_id code id : String) (heartbeat_ms : ℕ) (probes : List (ServiceHealthResult × ℕ))
    (db : Database) (t : ℕ)
    → find_instance code db.instances ≡ some id
    → IsSorted key (samples_of id db.liveness ++ probe_samples probes)
    → state_at none (samples_of id (probe_all fresh_id code heartbeat_ms probes db).liveness) t
      ≡ state_at none (samples_of id db.liveness ++ probe_samples probes) t
unfolding probe_all probe_samples
probe_all-state_at fresh_id code id heartbeat_ms [] db t h sorted =
    rw (append-nil (samples_of id db.liveness)) refl
probe_all-state_at fresh_id code id heartbeat_ms ((result, now) ∷ probes) db t h sorted =
    let ss = samples_of id db.liveness in
    let rest = probe_samples probes in
    let extra = added id result now heartbeat_ms ss in
    let mine = new_sample id result now heartbeat_ms in
    let next = (mark_service_health fresh_id code result now heartbeat_ms db).0 in
    let grown = mark_service_health-samples_of fresh_id code result now heartbeat_ms db id h in
    probe_all-state_at fresh_id code id heartbeat_ms probes next t
      (mark_service_health-find_instance fresh_id code result now heartbeat_ms db id h)
      (subst (λ us. IsSorted key (us ++ rest)) (sym grown)
        (added-IsSorted id result now heartbeat_ms ss rest sorted))
    ∙ ap (λ us. state_at none (us ++ rest) t) grown
    ∙ state_at-append none (ss ++ extra) rest t
    ∙ ap (λ b. state_at b rest t)
        (state_at-added id result now heartbeat_ms ss t (IsSorted-left key ss (mine ∷ rest) sorted)
          (IsSorted-before key ss mine rest sorted))
    ∙ sym (state_at-append none (ss ++ mine ∷ []) rest t)
    ∙ ap (λ us. state_at none us t) (append_assoc ss (mine ∷ []) rest)

-- A sample after `t` plays no part.
state_at-filter :
    (state : Option Bool) (ss : List LivenessSample) (t now : ℕ)
    → t ≤ now
    → state_at state (filter (λ s. leb s.t now) ss) t ≡ state_at state ss t
unfolding state_at
state_at-filter state [] t now h = refl
state_at-filter state (s ∷ ss) t now h =
    ground (arith, state_at-filter state ss t now h, state_at-filter (some s.ok) ss t now h)

state_at-samples_until :
    (ss : List LivenessSample) (t now : ℕ)
    → IsSorted key ss
    → t ≤ now
    → state_at none (samples_until now ss) t ≡ state_at none ss t
unfolding samples_until
state_at-samples_until ss t now sorted h =
    ap (λ us. state_at none us t)
      (sort_by_of_IsSorted key (filter (λ s. leb s.t now) ss)
        (filter-IsSorted key (λ s. leb s.t now) ss sorted))
    ∙ state_at-filter none ss t now h

compute_downtime_summary_same :
    (ss us : List LivenessSample) (since now window_ms : ℕ)
    → IsSorted key ss
    → IsSorted key us
    → ((t : ℕ) → state_at none ss t ≡ state_at none us t)
    → (compute_downtime_summary ss since now window_ms).downtime_ms
      ≡ (compute_downtime_summary us since now window_ms).downtime_ms
compute_downtime_summary_same ss us since now window_ms sorted sorted' same =
    compute_downtime_summary_measure ss since now window_ms
    ∙ ap (λ n. min n window_ms)
        (count_down-congr (state_at none (samples_until now ss))
          (state_at none (samples_until now us)) (min since now) (now - min since now)
          (λ t a b.
            state_at-samples_until ss t now sorted (omega arith)
            ∙ same t
            ∙ sym (state_at-samples_until us t now sorted' (omega arith))))
    ∙ sym (compute_downtime_summary_measure us since now window_ms)

probe_all-IsSorted :
    (fresh_id code id : String) (heartbeat_ms : ℕ) (probes : List (ServiceHealthResult × ℕ))
    (db : Database)
    → find_instance code db.instances ≡ some id
    → IsSorted key (samples_of id db.liveness ++ probe_samples probes)
    → IsSorted key (samples_of id (probe_all fresh_id code heartbeat_ms probes db).liveness)
unfolding probe_all probe_samples
probe_all-IsSorted fresh_id code id heartbeat_ms [] db h sorted =
    IsSorted-left key (samples_of id db.liveness) [] sorted
probe_all-IsSorted fresh_id code id heartbeat_ms ((result, now) ∷ probes) db h sorted =
    let ss = samples_of id db.liveness in
    let rest = probe_samples probes in
    let next = (mark_service_health fresh_id code result now heartbeat_ms db).0 in
    let grown = mark_service_health-samples_of fresh_id code result now heartbeat_ms db id h in
    probe_all-IsSorted fresh_id code id heartbeat_ms probes next
      (mark_service_health-find_instance fresh_id code result now heartbeat_ms db id h)
      (subst (λ us. IsSorted key (us ++ rest)) (sym grown)
        (added-IsSorted id result now heartbeat_ms ss rest sorted))

-- If a service has an instance and is probed at times that never fall, from that of its last row
-- on, the downtime computed from the rows that are left is that of all samples, recorded or not.
pub compute_downtime_summary-probe_all :
    (fresh_id code id : String) (heartbeat_ms : ℕ) (probes : List (ServiceHealthResult × ℕ))
    (db : Database) (since now window_ms : ℕ)
    → find_instance code db.instances ≡ some id
    → IsSorted key (samples_of id db.liveness ++ probe_samples probes)
    → (compute_downtime_summary
        (samples_of id (probe_all fresh_id code heartbeat_ms probes db).liveness)
        since
        now
        window_ms).downtime_ms
      ≡ (compute_downtime_summary
          (samples_of id db.liveness ++ probe_samples probes)
          since
          now
          window_ms).downtime_ms
compute_downtime_summary-probe_all fresh_id code id heartbeat_ms probes db since now window_ms h
      sorted =
    compute_downtime_summary_same _ _ since now window_ms
      (probe_all-IsSorted fresh_id code id heartbeat_ms probes db h sorted) sorted
      (λ t. probe_all-state_at fresh_id code id heartbeat_ms probes db t h sorted)
