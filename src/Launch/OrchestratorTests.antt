-- ===== src/Launch/OrchestratorTests.antt =====
-- Two services, of which one uses the corpus, and the theorem at an input that meets its hypotheses.
use excubitor.Prelude.{
  ℕ, ◌+◌, leb, ◌≡◌, refl, ◌⊎◌, ◌==◌, String, List, [], ◌∷◌, ◌++◌, map, none, Bool, true, false,
  filter,
}
use excubitor.Launch.Order.{Service, all_services, order_for_start}
use excubitor.Launch.Orchestrator.{
  ControlOutcome, control_ok, Launch, start_selection, selection_of, stop_selection,
  not_ready_codes,
}
use excubitor.Launch.Orchestrator.Runs.{eligible, outline, expected}
use excubitor.Launch.Orchestrator.Results.{start_selection-results}

abbrev corpus : Service
corpus = record {
  code = "corpus";
  project_code = none;
  uses_corpus = false;
  depends_on = [];
  disabled = false;
}

abbrev page : Service
page = record {
  code = "page";
  project_code = none;
  uses_corpus = true;
  depends_on = [];
  disabled = false;
}

abbrev catalog : List Service
catalog = page ∷ corpus ∷ []

abbrev works : ℕ → Service → ControlOutcome
works n s = control_ok "up"

-- The gate tells to stop at its third question, which is the first after a call of `control`.
abbrev third : ℕ → Bool
third n = n == 2

abbrev all_ready : List String → List (String × Bool)
all_ready codes = map (λ c. (c, true)) codes

abbrev selected : List String
selected = selection_of catalog [] ("page" ∷ [])

selected_run : selected ≡ "corpus" ∷ "page" ∷ []
unfolding selection_of
selected_run = refl

abbrev stopped : Launch
stopped = start_selection works third catalog [] true all_ready ("page" ∷ [])

stopped_run : stopped.controlled ≡ corpus ∷ []
unfolding start_selection
stopped_run = refl

stop_run :
    (stop_selection works third catalog ("page" ∷ "corpus" ∷ [])).controlled ≡ page ∷ corpus ∷ []
unfolding stop_selection
stop_run = refl

start_selection-results_example :
    (done : List Service) × (rest : List Service) × (all_services (order_for_start catalog selected)
      ≡ done ++ rest)
    × (map outline stopped.results
        ≡ map (expected (not_ready_codes true (all_ready selected))) done)
    × (stopped.controlled ≡ filter (eligible (not_ready_codes true (all_ready selected))) done)
    × ((rest ≡ []) ⊎ ((n : ℕ) × (stopped.asked ≡ n + 1) × (third n ≡ true)))
start_selection-results_example =
    start_selection-results works third catalog [] true all_ready ("page" ∷ [])

-- The gate answers to stop from its third call on.
abbrev from_third : ℕ → Bool
from_third n = leb 2 n

abbrev shut_down : Launch
shut_down = start_selection works from_third catalog [] true all_ready ("page" ∷ [])
