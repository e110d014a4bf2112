-- ===== src/Launch/Orchestrator/Gate.antt =====
-- src/launch/orchestrator.ts: `startSelection` and a gate that goes on to answer to stop once it has.
use excubitor.Prelude.{ℕ, ◌+◌, ◌≤◌, ◌≡◌, String, List, Bool, true, false, length}
use excubitor.Launch.Order.{Service}
use excubitor.Launch.Orchestrator.{ControlOutcome, Launch}

-- Once the gate has answered to stop, it does so for good.
abbrev pub StaysShut : (ℕ → Bool) → Type 0
StaysShut should_stop = (n : ℕ) → should_stop n ≡ true → should_stop (n + 1) ≡ true

module _ (control : ℕ → Service → ControlOutcome) (should_stop : ℕ → Bool) (not_ready : List String)
    (stays : StaysShut should_stop) (m : ℕ) (stop : should_stop m ≡ true) where
  -- The gate is asked at most once more, and `control` was called at most `m` times.
  abbrev Heeds : Launch → Type 0
  Heeds l = (l.asked ≤ m + 2) × (length l.controlled ≤ m) × (length l.controlled ≤ l.asked)

  -- The loops go on only if the gate has not yet answered to stop, or `late` times.
  abbrev GoesOn : ℕ → Launch → Type 0
  GoesOn late l = (l.left ≡ false → l.asked ≤ m + late) × Heeds l
