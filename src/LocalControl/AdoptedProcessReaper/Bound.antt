-- ===== src/LocalControl/AdoptedProcessReaper/Bound.antt =====
-- src/local-control/adopted-process-reaper.ts: rounds in which a service is never found alive.
use excubitor.Prelude.{
  ℕ, suc, ◌+◌, ◌-◌, ◌≡◌, ap, ◌∙◌, String, List, [], ◌∷◌, some, true, false, leb, if◌then◌else◌,
  length, min, All, arith,
}
use excubitor.Prelude.Maps.{lookup}
use excubitor.Prelude.Sets.{has}
use excubitor.LocalControl.AdoptedProcessReaper.{
  Round, Reaper, restartable, count_or_zero, run_once,
}
use excubitor.LocalControl.AdoptedProcessReaper.Candidates.{view, starts_of, run_once-view}

unfoldable pub run_all : List Round → Reaper → Reaper
run_all [] r = r
run_all (round ∷ rounds) r = run_all rounds (run_once round r)

-- The catalog is refreshed; the service is adopted and wanted, is not found alive, and may be restarted `m` times.
abbrev pub IsFailing : String → ℕ → Round → Type 0
IsFailing c m round =
    (round.refresh_throws ≡ false)
    × (has round.list_adopted c ≡ true)
    × (round.is_adopted c ≡ true)
    × (round.should_recover c ≡ true)
    × (round.validate_managed c ≡ some false)
    × (restartable (round.service c) ≡ some m)

run_once_failing :
    (c : String) (m : ℕ) (round : Round) (r : Reaper)
    → IsFailing c m round
    → view c (run_once round r) ≡ (
        let (n, k) = view c r in
        if leb m (count_or_zero n) then (n, k) else (some (count_or_zero n + 1), suc k))
run_once_failing c m round r (refreshed, listed, adopted, wanted, dead, may) =
    run_once-view round c r refreshed ∙ ground (arith, listed, adopted, wanted, dead, may)

-- In rounds in each of which the catalog is refreshed and a service is adopted, wanted, bounded by the
-- same number and not found alive, the service is started anew once in each round, whether or not the
-- start throws, until its count reaches its bound, and then no more.
pub run_all-starts_of :
    (c : String) (m : ℕ) (rounds : List Round) (r : Reaper)
    → All (IsFailing c m) rounds
    → starts_of c (run_all rounds r).started
      ≡ starts_of c r.started + min (length rounds) (m - count_or_zero (lookup c r.retry_counts))
unfolding run_all
run_all-starts_of c m [] r a = omega arith
run_all-starts_of c m (round ∷ rounds) r (f, a) =
    let step = run_once_failing c m round r f in
    let next = run_all-starts_of c m rounds (run_once round r) a in
    ground (arith, ap (λ v. v.0) step, ap (λ v. v.1) step, next)
