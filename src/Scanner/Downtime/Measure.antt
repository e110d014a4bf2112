-- ===== src/Scanner/Downtime/Measure.antt =====
-- src/scanner/downtime.ts: the downtime against the state at each millisecond of the window.
use excubitor.Prelude.{
  ℕ, zero, suc, ◌+◌, ◌-◌, ◌≤◌, ◌<◌, ◌≡◌, refl, sym, ap, ◌∙◌, List, [], ◌∷◌, Option, none, some,
  Bool, true, false, ltb, leb, if◌then◌else◌, min, filter, arith, Bool-cases, inl, inr, All,
  All-mono, All-of,
}
use excubitor.Prelude.Sorting.{IsSorted, sort_by-IsSorted, All-sort_by}
use excubitor.Scanner.Downtime.{
  LivenessSample, Scan, is_down, start, before_window, in_window, scan_samples, samples_until,
  summarize, compute_downtime_summary,
}

-- The state at `t`: that of the last sample up to `t`, or `state` if there is none.
unfoldable pub state_at : Option Bool → List LivenessSample → ℕ → Option Bool
state_at state [] t = state
state_at state (s ∷ ss) t = state_at (if leb s.t t then some s.ok else state) ss t

-- How many of the `n` times from `a` on are down.
unfoldable pub count_down : (ℕ → Option Bool) → ℕ → ℕ → ℕ
count_down f a zero = 0
count_down f a (suc n) =
    let rest = count_down f (a + 1) n in if is_down (f a) then suc rest else rest

pub count_down-congr :
    (f g : ℕ → Option Bool) (a n : ℕ)
    → ((t : ℕ) → a ≤ t → t < a + n → f t ≡ g t)
    → count_down f a n ≡ count_down g a n
unfolding count_down
count_down-congr f g a zero h = refl
count_down-congr f g a (suc n) h = ground (
  arith,
  h a (omega arith) (omega arith),
  count_down-congr f g (a + 1) n (λ t l m. h t (omega arith) (omega arith)),
)

count_down-add :
    (f : ℕ → Option Bool) (a n m k b : ℕ)
    → k ≡ n + m
    → b ≡ a + n
    → count_down f a k ≡ count_down f a n + count_down f b m
unfolding count_down
count_down-add f a zero m k b e e' =
    let same : k ≡ m = omega arith in
    let here : b ≡ a = omega arith in rw (same, here) (omega arith)
count_down-add f a (suc n) m zero b e e' = absurd (omega arith)
count_down-add f a (suc n) m (suc k) b e e' =
    ground (arith, count_down-add f (a + 1) n m k b (omega arith) (omega arith))

count_down-const :
    (state : Option Bool) (a n : ℕ) → count_down (λ t. state) a n ≡ (if is_down state then n else 0)
unfolding count_down
count_down-const state a zero = ground arith
count_down-const state a (suc n) = ground (arith, count_down-const state (a + 1) n)

-- Before the first sample the state is the one that was there.
state_at_before :
    (state : Option Bool) (ss : List LivenessSample) (t : ℕ)
    → All (λ s. t < s.t) ss
    → state_at state ss t ≡ state
unfolding state_at
state_at_before state [] t a = refl
state_at_before state (s ∷ ss) t a = ground (arith, state_at_before state ss t a.1)

state_at_after :
    (state : Option Bool) (s : LivenessSample) (ss : List LivenessSample) (t : ℕ)
    → s.t ≤ t
    → state_at state (s ∷ ss) t ≡ state_at (some s.ok) ss t
unfolding state_at
state_at_after state s ss t h = ground arith

abbrev pub key : LivenessSample → ℕ
key s = s.t

-- What the end of the function adds up.
abbrev total : ℕ → Scan → ℕ
total now c = if is_down c.state then c.downtime_ms + (now - c.cursor) else c.downtime_ms

module _ (since now : ℕ) where
  -- One sample in the window: the time up to it is counted by the state before it.
  count_to_sample :
      (c : Scan) (s : LivenessSample) (ss : List LivenessSample)
      → c.cursor ≤ s.t
      → s.t ≤ now
      → IsSorted key (s ∷ ss)
      → c.downtime_ms + count_down (state_at c.state (s ∷ ss)) c.cursor (now - c.cursor)
        ≡ (in_window s c).downtime_ms + count_down (state_at (some s.ok) ss) s.t (now - s.t)
  unfolding in_window
  count_to_sample c s ss h l sorted =
      let all = state_at c.state (s ∷ ss) in
      let first : count_down all c.cursor (s.t - c.cursor)
          ≡ (if is_down c.state then s.t - c.cursor else 0) =
        count_down-congr all (λ t. c.state) c.cursor (s.t - c.cursor)
          (λ t a b.
            state_at_before c.state (s ∷ ss) t
              (omega arith, All-mono (λ u le. omega arith) ss sorted.0))
        ∙ count_down-const c.state c.cursor (s.t - c.cursor) in
      let later : count_down all s.t (now - s.t)
          ≡ count_down (state_at (some s.ok) ss) s.t (now - s.t) =
        count_down-congr all (state_at (some s.ok) ss) s.t (now - s.t)
          (λ t a b. state_at_after c.state s ss t a) in
      ground (
        arith,
        first,
        later,
        count_down-add all c.cursor (s.t - c.cursor) (now - s.t) (now - c.cursor) s.t (omega arith)
            (omega arith),
      )

  scan_samples_early :
      (s : LivenessSample) (ss : List LivenessSample) (c : Scan)
      → ltb s.t since ≡ true
      → scan_samples since (s ∷ ss) c ≡ scan_samples since ss (before_window s c)
  unfolding scan_samples
  scan_samples_early s ss c h = rw (h, scan_samples)

  scan_samples_late :
      (s : LivenessSample) (ss : List LivenessSample) (c : Scan)
      → ltb s.t since ≡ false
      → scan_samples since (s ∷ ss) c ≡ scan_samples since ss (in_window s c)
  unfolding scan_samples
  scan_samples_late s ss c h = rw (h, scan_samples)

  -- A sample before the window changes neither the sum nor the place that is reached.
  before_window_lem :
      (s : LivenessSample) (c : Scan)
      → ((before_window s c).downtime_ms ≡ c.downtime_ms)
        × ((before_window s c).cursor ≡ c.cursor)
        × ((before_window s c).state ≡ some s.ok)
  unfolding before_window
  before_window_lem s c = ground arith

  in_window_lem :
      (s : LivenessSample) (c : Scan)
      → ((in_window s c).cursor ≡ s.t) × ((in_window s c).state ≡ some s.ok)
  unfolding in_window
  in_window_lem s c = (refl, refl)

  total-scan_samples :
      (ss : List LivenessSample) (c : Scan)
      → since ≤ c.cursor
      → IsSorted key ss
      → All (λ s. s.t ≤ now) ss
      → All (λ (s : LivenessSample). since ≤ s.t → c.cursor ≤ s.t) ss
      → total now (scan_samples since ss c)
        ≡ c.downtime_ms + count_down (state_at c.state ss) c.cursor (now - c.cursor)
  unfolding scan_samples state_at
  total-scan_samples [] c h sorted l a =
      ground (arith, count_down-const c.state c.cursor (now - c.cursor))
  total-scan_samples (s ∷ ss) c h sorted l a = elim (Bool-cases (ltb s.t since)) [
    | inl early ↦
        let (kept, place, state) = before_window_lem s c in
        ap (total now) (scan_samples_early s ss c early)
        ∙ total-scan_samples ss (before_window s c) (rw place h) sorted.1 l.1 (rw place a.1)
        ∙ rw (kept, place, state)
            (ap (λ n. c.downtime_ms + n)
              (sym (
                count_down-congr (state_at c.state (s ∷ ss)) (state_at (some s.ok) ss) c.cursor
                  (now - c.cursor)
                  (λ t b e. state_at_after c.state s ss t (ground (arith, early))))))
    | inr late ↦
        let in_time : since ≤ s.t = ground (arith, late) in
        ap (total now) (scan_samples_late s ss c late)
        ∙ total-scan_samples ss (in_window s c) in_time sorted.1 l.1
            (All-mono (λ u le b. le) ss sorted.0)
        ∙ sym (count_to_sample c s ss (a.0 in_time) l.0 sorted)
  ]

scan_start :
    (since now : ℕ) (ss : List LivenessSample)
    → IsSorted key ss
    → All (λ s. s.t ≤ now) ss
    → total now (scan_samples since ss (start since))
      ≡ count_down (state_at none ss) since (now - since)
unfolding start
scan_start since now ss sorted a = omega (
  arith,
  total-scan_samples since now ss (start since) (omega arith) sorted a (All-of (λ s h. h) ss),
)

filter_until :
    (now : ℕ) (ss : List LivenessSample) → All (λ s. s.t ≤ now) (filter (λ s. leb s.t now) ss)
filter_until now [] = tt
filter_until now (s ∷ ss) = ground (arith, filter_until now ss)

pub samples_until-All :
    (now : ℕ) (ss : List LivenessSample) → All (λ s. s.t ≤ now) (samples_until now ss)
unfolding samples_until
samples_until-All now ss =
    All-sort_by key (λ s. s.t ≤ now) (filter (λ s. leb s.t now) ss) (filter_until now ss)

pub samples_until-IsSorted :
    (now : ℕ) (ss : List LivenessSample) → IsSorted key (samples_until now ss)
unfolding samples_until
samples_until-IsSorted now ss = sort_by-IsSorted key (filter (λ s. leb s.t now) ss)

summarize_downtime :
    (now window_ms : ℕ) (c : Scan)
    → (summarize now window_ms c).downtime_ms ≡ min (total now c) window_ms
unfolding summarize
summarize_downtime now window_ms c = refl

-- The downtime of the summary is the number of milliseconds, from the start of the window up to
-- now, at which the last sample so far is down; but at most the window's length.
pub compute_downtime_summary_measure :
    (samples : List LivenessSample) (since now window_ms : ℕ)
    → (compute_downtime_summary samples since now window_ms).downtime_ms
      ≡ min
          (count_down
            (state_at none (samples_until now samples))
            (min since now)
            (now - min since now))
          window_ms
unfolding compute_downtime_summary
compute_downtime_summary_measure samples since now window_ms =
    let from = min since now in
    let ss = samples_until now samples in
    summarize_downtime now window_ms (scan_samples from ss (start from))
    ∙ ap (λ n. min n window_ms)
        (scan_start from now ss (samples_until-IsSorted now samples)
          (samples_until-All now samples))
