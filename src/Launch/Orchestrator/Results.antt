-- ===== src/Launch/Orchestrator/Results.antt =====
-- src/launch/orchestrator.ts: the results of `startSelection` against the order of starting.
use excubitor.Prelude.{
  ℕ, ◌≡◌, refl, sym, subst, ◌∙◌, ◌⊎◌, inl, inr, String, List, [], ◌∷◌, ◌++◌, map, Bool, true,
  filter, Bool-cases, ◌+◌,
}
use excubitor.Launch.Order.{Service, OrderedTier, all_services, order_for_start}
use excubitor.Launch.Orchestrator.{
  ControlOutcome, Launch, new_launch, ask, launch_services, gap, launch_tiers, not_ready_codes,
  selection_of, start_selection,
}
use excubitor.Launch.Orchestrator.Runs.{
  eligible, outline, expected, if_elim, not_both, IsCaused, nothing_added, ask-IsCaused, Runs,
  stops, joins, one_after_other, launch_services-Runs,
}

module _ (control : ℕ → Service → ControlOutcome) (should_stop : ℕ → Bool)
    (not_ready : List String) where
  gap_kept :
      (tiers : List OrderedTier) (l : Launch)
      → (l.left ≡ true → gap control should_stop tiers l ≡ l)
        × ((gap control should_stop tiers l).results ≡ l.results)
        × ((gap control should_stop tiers l).controlled ≡ l.controlled)
        × ((gap control should_stop tiers l).left ≡ l.left)
  unfolding gap
  gap_kept [] l = (λ h. refl, refl, refl, refl)
  gap_kept (t ∷ tiers) l =
      if_elim
        (λ (n : Launch).
          (l.left ≡ true → n ≡ l)
          × (n.results ≡ l.results)
          × (n.controlled ≡ l.controlled)
          × (n.left ≡ l.left))
        l.left _ _ (λ left. (λ h. refl, refl, refl, refl))
        (λ going. (λ h. absurd (not_both going h), refl, refl, refl))

  gap-IsCaused :
      (tiers : List OrderedTier) (l : Launch)
      → IsCaused control should_stop not_ready l
      → IsCaused control should_stop not_ready (gap control should_stop tiers l)
  gap-IsCaused tiers l c =
      let kept = gap_kept tiers l in
      elim (Bool-cases l.left) [
        | inl left ↦ subst (IsCaused control should_stop not_ready) (sym (kept.0 left)) c
        | inr going ↦ inl (kept.3 ∙ going)
      ]

  launch_tiers_left :
      (tiers : List OrderedTier) (l : Launch)
      → l.left ≡ true
      → launch_tiers control should_stop not_ready tiers l ≡ l
  unfolding launch_tiers
  launch_tiers_left [] l h = refl
  launch_tiers_left (t ∷ tiers) l h =
      if_elim (λ (n : Launch). n ≡ l) l.left _ _ (λ left. refl) (λ going. absurd (not_both going h))

  launch_tiers-Runs :
      (tiers : List OrderedTier) (l : Launch)
      → IsCaused control should_stop not_ready l
      → Runs control should_stop not_ready
          (all_services tiers)
          l
          (launch_tiers control should_stop not_ready tiers l)
  unfolding launch_tiers ask
  launch_tiers-Runs [] l c = record {
    done = [];
    rest = [];
    split = refl;
    adds = nothing_added control should_stop not_ready l l refl refl;
    caused = c;
    ends = inl refl;
  }
  launch_tiers-Runs (t ∷ tiers) l c =
      let asked = ask control should_stop l in
      let mid = launch_services control should_stop not_ready t.services asked in
      let between = gap control should_stop tiers mid in
      let next = launch_tiers control should_stop not_ready tiers between in
      let services = t.services ++ all_services tiers in
      let first =
        launch_services-Runs control should_stop not_ready t.services asked
          (ask-IsCaused control should_stop not_ready l) in
      let kept = gap_kept tiers mid in
      let second = launch_tiers-Runs tiers between (gap-IsCaused tiers mid first.caused) in
      if_elim (Runs control should_stop not_ready services l) l.left _ _
        (λ left. stops control should_stop not_ready services l l refl refl c left)
        (λ going.
          if_elim (Runs control should_stop not_ready services l) asked.left _ _
            (λ left.
              stops control should_stop not_ready services l asked refl refl
                (ask-IsCaused control should_stop not_ready l) left)
            (λ goes_on.
              one_after_other control should_stop not_ready t.services (all_services tiers) l mid
                next
                (joins control should_stop not_ready [] t.services l asked mid
                  (nothing_added control should_stop not_ready l asked refl refl) first)
                (joins control should_stop not_ready [] (all_services tiers) mid between next
                  (nothing_added control should_stop not_ready mid between kept.1 kept.2) second)
                (λ left. launch_tiers_left tiers between (kept.3 ∙ left) ∙ kept.0 left)))

  -- Services are left out only if the last answer of the gate was to stop.
  ended :
      {services : List Service} {l next : Launch}
      (r : Runs control should_stop not_ready services l next)
      → (r.rest ≡ []) ⊎ ((n : ℕ) × (next.asked ≡ n + 1) × (should_stop n ≡ true))
  ended {next = next} r = why r.ends r.caused
    where
      why :
          (r.rest ≡ []) ⊎ (next.left ≡ true)
          → IsCaused control should_stop not_ready next
          → (r.rest ≡ []) ⊎ ((n : ℕ) × (next.asked ≡ n + 1) × (should_stop n ≡ true))
      why (inl whole) c = inl whole
      why (inr left) (inl going) = absurd (not_both going left)
      why (inr left) (inr gate) = inr gate

-- The services are those of the start order of the selection, first to last, up to some point: each has
-- one result, which is skipped if and only if it is disabled or not ready, and `control` was called
-- for the others and for no other, in that order. That point is the end, unless the last answer of the
-- gate, of those that were asked for, was to stop.
pub start_selection-results :
    (control : ℕ → Service → ControlOutcome) (should_stop : ℕ → Bool) (services : List Service)
    (prefs : List (String × Bool)) (skip_not_ready : Bool)
    (preflight : List String → List (String × Bool)) (codes : List String)
    → let selection = selection_of services prefs codes in
      let not_ready = not_ready_codes skip_not_ready (preflight selection) in
      let launch =
        start_selection control should_stop services prefs skip_not_ready preflight codes in
      (done : List Service) × (rest : List Service) × (all_services
          (order_for_start services selection)
        ≡ done ++ rest)
      × (map outline launch.results ≡ map (expected not_ready) done)
      × (launch.controlled ≡ filter (eligible not_ready) done)
      × ((rest ≡ []) ⊎ ((n : ℕ) × (launch.asked ≡ n + 1) × (should_stop n ≡ true)))
unfolding start_selection
start_selection-results control should_stop services prefs skip_not_ready preflight codes =
    let selection = selection_of services prefs codes in
    let not_ready = not_ready_codes skip_not_ready (preflight selection) in
    let run =
      launch_tiers-Runs control should_stop not_ready (order_for_start services selection)
        new_launch (inl refl) in
    (run.done, run.rest, run.split, run.adds.0, run.adds.1, ended control should_stop not_ready run)
