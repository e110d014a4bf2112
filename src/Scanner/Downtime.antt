-- ===== src/Scanner/Downtime.antt =====
-- src/scanner/downtime.ts: `computeDowntimeSummary`. Times are whole milliseconds since the epoch,
-- so `Math.floor` and the test for finite times change nothing. The ratio is kept as the fraction
-- whose quotient the source rounds to a float.
pub mod Measure
use excubitor.Prelude.{
  ℕ, ◌+◌, ◌-◌, ◌≡◌, List, [], ◌∷◌, Option, none, some, Bool, true, false, not, ◌&&◌, ltb, leb,
  if◌then◌else◌, min, filter,
}
use excubitor.Prelude.Sorting.{sort_by}

pub record LivenessSample : Type 0 where
  pub t : ℕ
  pub ok : Bool

pub record DowntimeSummary : Type 0 where
  pub window_ms : ℕ
  pub downtime_ms : ℕ
  pub uptime_ratio : Option (ℕ × ℕ)
  pub incidents : ℕ
  pub current_down_since : Option ℕ
  pub current_down_ms : ℕ
  pub last_probe_at : Option ℕ
  pub last_ok_at : Option ℕ
  pub last_down_at : Option ℕ

-- The variables of the loop.
pub record Scan : Type 0 where
  pub downtime_ms : ℕ
  pub incidents : ℕ
  pub state : Option Bool
  pub cursor : ℕ
  pub last_probe_at : Option ℕ
  pub last_ok_at : Option ℕ
  pub last_down_at : Option ℕ
  pub current_down_since : Option ℕ

-- `state === false`
abbrev pub is_down : Option Bool → Bool
is_down (some false) = true
is_down _ = false

unfoldable pub start : ℕ → Scan
start since = record {
  downtime_ms = 0;
  incidents = 0;
  state = none;
  cursor = since;
  last_probe_at = none;
  last_ok_at = none;
  last_down_at = none;
  current_down_since = none;
}

-- The body of the loop for a sample before the window.
unfoldable pub before_window : LivenessSample → Scan → Scan
before_window s c =
    let probed = record c { state = some s.ok; last_probe_at = some s.t } in
    if s.ok
    then record probed { last_ok_at = some s.t }
    else record probed { last_down_at = some s.t; current_down_since = some s.t }

-- The body of the loop for a sample in the window.
unfoldable pub in_window : LivenessSample → Scan → Scan
in_window s c =
    let began = not s.ok && not (is_down c.state) in
    record c {
      downtime_ms = if is_down c.state then c.downtime_ms + (s.t - c.cursor) else c.downtime_ms;
      incidents = if began then c.incidents + 1 else c.incidents;
      current_down_since = if s.ok then none else if began then some s.t else c.current_down_since;
      last_ok_at = if s.ok then some s.t else c.last_ok_at;
      last_down_at = if s.ok then c.last_down_at else some s.t;
      state = some s.ok;
      cursor = s.t;
      last_probe_at = some s.t;
    }

unfoldable pub scan_samples : ℕ → List LivenessSample → Scan → Scan
unfolding before_window in_window
scan_samples since [] c = c
scan_samples since (s ∷ ss) c =
    scan_samples since ss (if ltb s.t since then before_window s c else in_window s c)

-- `currentDownSince ?? lastDownAt`
abbrev pub coalesce : Option ℕ → Option ℕ → Option ℕ
coalesce none b = b
coalesce (some a) b = some a

unfoldable pub samples_until : ℕ → List LivenessSample → List LivenessSample
unfolding sort_by
samples_until now samples =
    sort_by (λ (s : LivenessSample). s.t) (filter (λ s. leb s.t now) samples)

-- The end of the function: the time since the last sample, the bounds and the result.
unfoldable pub summarize : ℕ → ℕ → Scan → DowntimeSummary
summarize now window_ms c =
    let downtime = if is_down c.state then c.downtime_ms + (now - c.cursor) else c.downtime_ms in
    let bounded = min downtime window_ms in
    let since = if is_down c.state then coalesce c.current_down_since c.last_down_at else none in
    record {
      window_ms = window_ms;
      downtime_ms = bounded;
      uptime_ratio = if ltb 0 window_ms then some (window_ms - bounded, window_ms) else none;
      incidents = c.incidents;
      current_down_since = since;
      current_down_ms = elim since [ none ↦ 0 | some d ↦ now - d ];
      last_probe_at = c.last_probe_at;
      last_ok_at = c.last_ok_at;
      last_down_at = c.last_down_at;
    }

unfoldable pub compute_downtime_summary : List LivenessSample → ℕ → ℕ → ℕ → DowntimeSummary
unfolding start scan_samples samples_until summarize
compute_downtime_summary samples since now window_ms =
    let from = min since now in
    summarize now window_ms (scan_samples from (samples_until now samples) (start from))
