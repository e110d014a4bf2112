-- ===== src/Shared/Tests.antt =====
-- Three items with a limit of two, where the second call settles first.
use excubitor.Prelude.{
  ℕ, ◌+◌, ◌≡◌, ◌≤◌, refl, List, [], ◌∷◌, Option, none, some, false, length, get_or, arith,
}
use excubitor.Shared.MapLimit.{
  Pool, indices, start, map_with_limit, settle, Reachable, begins, settles,
}
use excubitor.Shared.MapLimit.Results.{Reachable-called, Reachable-results}

abbrev add_index : ℕ → ℕ → Option ℕ
add_index n index = some (n + index)

abbrev items : List ℕ
items = 10 ∷ 20 ∷ 30 ∷ []

abbrev first : Pool ℕ
first = start add_index items 2

abbrev second : Pool ℕ
second = settle add_index items (0 ∷ []) 1 [] first

abbrev third : Pool ℕ
third = settle add_index items (0 ∷ []) 2 [] second

abbrev last : Pool ℕ
last = settle add_index items [] 0 [] third

second-Reachable : Reachable add_index items 2 second
unfolding map_with_limit settle
second-Reachable = settles (0 ∷ []) 1 [] first (begins first refl) refl

last-Reachable : Reachable add_index items 2 last
unfolding map_with_limit settle
last-Reachable = settles [] 0 [] third (settles (0 ∷ []) 2 [] second second-Reachable refl) refl

last_run : last.results ≡ some 10 ∷ some 21 ∷ some 32 ∷ []
unfolding start settle
last_run = refl

last_idle : last.active ≡ []
unfolding start settle
last_idle = refl

last_fine : last.failed ≡ false
unfolding start settle
last_fine = refl

Reachable-called_example :
    (length second.active ≤ 2)
    × (second.called ≡ indices 0 second.next)
    × (second.next ≤ length items)
    × (second.settled + length second.active ≡ second.next)
Reachable-called_example = Reachable-called add_index items 2 second second-Reachable

Reachable-results_example : get_or last.results 1 none ≡ some 21
Reachable-results_example =
    Reachable-results add_index items 2 last 1 21 last-Reachable last_idle last_fine (omega arith)
      refl
