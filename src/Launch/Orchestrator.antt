-- ===== src/Launch/Orchestrator.antt =====
-- src/launch/orchestrator.ts and src/launch/corpus-prefs.ts: `startSelection`, `stopSelection` and
-- `withCorpusIfNeeded`. The control of services, the shutdown gate and the report of the preflight are
-- arguments: the outcome of each call of `control` and the answer of each call of `shouldStop`, by its
-- number.
pub mod Runs
pub mod Gate
pub mod Results
use excubitor.Prelude.{
  ℕ, ◌+◌, String, str_eq, List, [], ◌∷◌, ◌++◌, Option, none, some, Bool, true, false, not, ◌&&◌,
  ◌||◌, if◌then◌else◌, any, length,
}
use excubitor.Prelude.Maps.{lookup}
use excubitor.Launch.Order.{
  Service, OrderedTier, has, expand_with_dependencies, order_for_start, order_for_stop,
}

abbrev pub corpus_code : String
corpus_code = "corpus"

abbrev pub or_default : Option Bool → Bool → Bool
or_default none standard = standard
or_default (some override) standard = override

unfoldable pub effective_uses_corpus : Service → List (String × Bool) → Bool
unfolding lookup
effective_uses_corpus s prefs = or_default (lookup s.code prefs) s.uses_corpus

unfoldable pub with_corpus_if_needed :
    List Service → List (String × Bool) → List String → List String
unfolding effective_uses_corpus
with_corpus_if_needed services prefs selection =
    let any_uses_corpus =
      any (λ s. has selection s.code && effective_uses_corpus s prefs) services in
    let has_corpus = any (λ s. str_eq s.code corpus_code) services in
    if not any_uses_corpus
    then selection
    else if not has_corpus || has selection corpus_code
    then selection
    else corpus_code ∷ selection

-- The answer of `control`, or the message of its error.
pub data ControlOutcome : Type 0 where
  control_ok : String → ControlOutcome
  control_failed : String → ControlOutcome
  control_threw : String → ControlOutcome

pub record LaunchItemResult : Type 0 where
  pub code : String
  pub ok : Bool
  pub skipped : Bool
  pub message : String

-- The results, the services that `control` was called for, how often `shouldStop` was asked, how
-- often there was a gap between tiers, and whether the loops were left.
pub record Launch : Type 0 where
  pub results : List LaunchItemResult
  pub controlled : List Service
  pub asked : ℕ
  pub gaps : ℕ
  pub left : Bool

abbrev pub new_launch : Launch
new_launch = record { results = []; controlled = []; asked = 0; gaps = 0; left = false }

abbrev pub skip_item : Service → String → LaunchItemResult
skip_item s message = record { code = s.code; ok = false; skipped = true; message = message }

unfoldable pub item_of : Service → ControlOutcome → LaunchItemResult
item_of s (control_ok stdout) = record {
  code = s.code;
  ok = true;
  skipped = false;
  message = stdout;
}
item_of s (control_failed stderr) = record {
  code = s.code;
  ok = false;
  skipped = false;
  message = stderr;
}
item_of s (control_threw message) = record {
  code = s.code;
  ok = false;
  skipped = false;
  message = message;
}

-- An error is caught before the gate is asked.
unfoldable pub asks_after : ControlOutcome → Bool
asks_after (control_ok stdout) = true
asks_after (control_failed stderr) = true
asks_after (control_threw message) = false

-- The codes whose services the report calls not ready.
unfoldable pub not_ready_codes : Bool → List (String × Bool) → List String
not_ready_codes false report = []
not_ready_codes true [] = []
not_ready_codes true ((code, ready) ∷ report) =
    let rest = not_ready_codes true report in if ready then rest else code ∷ rest

-- The codes that are to be started.
unfoldable pub selection_of : List Service → List (String × Bool) → List String → List String
unfolding with_corpus_if_needed expand_with_dependencies
selection_of services prefs codes =
    with_corpus_if_needed services prefs (expand_with_dependencies services codes)

module _ (control : ℕ → Service → ControlOutcome) (should_stop : ℕ → Bool) where
  -- `if (shouldStop()) break launch`
  unfoldable pub ask : Launch → Launch
  ask l = record l { asked = l.asked + 1; left = should_stop l.asked }

  unfoldable pub control_service : Service → Launch → Launch
  unfolding item_of asks_after ask
  control_service s l =
      let outcome = control (length l.controlled) s in
      let called = record l {
        results = l.results ++ item_of s outcome ∷ [];
        controlled = l.controlled ++ s ∷ [];
      } in
      if asks_after outcome then ask called else called

  -- A service after the gate.
  unfoldable pub launch_service : List String → Service → Launch → Launch
  unfolding control_service
  launch_service not_ready s l =
      if s.disabled
      then record l { results = l.results ++ skip_item s "disabled in catalog" ∷ [] }
      else if has not_ready s.code
      then record l { results = l.results ++ skip_item s "preflight not ready" ∷ [] }
      else control_service s l

  -- The loop over the services of a tier, which is left for good where the gate says so.
  unfoldable pub launch_services : List String → List Service → Launch → Launch
  unfolding ask launch_service
  launch_services not_ready [] l = l
  launch_services not_ready (s ∷ services) l =
      let asked = ask l in
      let rest = launch_services not_ready services (launch_service not_ready s asked) in
      if l.left then l else if asked.left then asked else rest

  -- `if (i < tiers.length - 1 && !shouldStop()) await delay(TIER_GAP_MS)`
  unfoldable pub gap : List OrderedTier → Launch → Launch
  gap [] l = l
  gap (t ∷ later) l = if l.left then l else record l {
    asked = l.asked + 1;
    gaps = if should_stop l.asked then l.gaps else l.gaps + 1;
  }

  unfoldable pub launch_tiers : List String → List OrderedTier → Launch → Launch
  unfolding ask launch_services gap
  launch_tiers not_ready [] l = l
  launch_tiers not_ready (t ∷ tiers) l =
      let asked = ask l in
      let rest =
        launch_tiers not_ready tiers (gap tiers (launch_services not_ready t.services asked)) in
      if l.left then l else if asked.left then asked else rest

  -- `startSelection`, with the report that `runPreflight` gives for the codes.
  unfoldable pub start_selection :
      List Service
      → List (String × Bool)
      → Bool
      → (List String → List (String × Bool))
      → List String
      → Launch
  unfolding selection_of not_ready_codes launch_tiers order_for_start
  start_selection services prefs skip_not_ready preflight codes =
      let selection = selection_of services prefs codes in
      let not_ready = not_ready_codes skip_not_ready (preflight selection) in
      launch_tiers not_ready (order_for_start services selection) new_launch

  unfoldable pub stop_services : List Service → Launch → Launch
  unfolding item_of
  stop_services [] l = l
  stop_services (s ∷ services) l = stop_services services (record l {
    results = l.results ++ item_of s (control (length l.controlled) s) ∷ [];
    controlled = l.controlled ++ s ∷ [];
  })

  unfoldable pub stop_selection : List Service → List String → Launch
  unfolding order_for_stop stop_services
  stop_selection services codes = stop_services (order_for_stop services codes) new_launch
