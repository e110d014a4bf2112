-- ===== src/Launch/Orchestrator/Runs.antt =====
-- src/launch/orchestrator.ts: the services of a tier, one after the other.
use mathlib.Core.List.{append_assoc, append-nil, map-append}
use excubitor.Prelude.{
  ℕ, ◌+◌, ◌≡◌, refl, sym, ap, subst, ◌∙◌, ◌⊎◌, inl, inr, String, List, [], ◌∷◌, ◌++◌, map, Bool,
  true, false, not, ◌&&◌, if◌then◌else◌, filter, filter-append, length, Bool-cases,
}
use excubitor.Launch.Order.{Service, has}
use excubitor.Launch.Orchestrator.{
  ControlOutcome, skip_item, control_ok, control_failed, control_threw, LaunchItemResult, Launch,
  item_of, asks_after, ask, control_service, launch_service, launch_services,
}

-- The service may be started.
abbrev pub eligible : List String → Service → Bool
eligible not_ready s = not s.disabled && not (has not_ready s.code)

-- The code and whether the service was skipped.
abbrev pub outline : LaunchItemResult → String × Bool
outline r = (r.code, r.skipped)

abbrev pub expected : List String → Service → String × Bool
expected not_ready s = (s.code, not (eligible not_ready s))

pub not_both : {b : Bool} → b ≡ false → b ≡ true → ⊥
not_both e f = cc

-- A conditional, with the equation of its test in either branch.
pub if_elim {ℓ κ} :
    {A : Type ℓ} (P : A → Type κ) (b : Bool) (x y : A)
    → (b ≡ true → P x)
    → (b ≡ false → P y)
    → P (if b then x else y)
if_elim P true x y f g = f refl
if_elim P false x y f g = g refl

module _ (control : ℕ → Service → ControlOutcome) (should_stop : ℕ → Bool)
    (not_ready : List String) where
  -- The loops are only left where the gate's last answer said so.
  abbrev pub IsCaused : Launch → Type 0
  IsCaused l = (l.left ≡ false) ⊎ ((n : ℕ) × (l.asked ≡ n + 1) × (should_stop n ≡ true))

  -- What the services in `done` have added.
  abbrev pub Adds : List Service → Launch → Launch → Type 0
  Adds done l next =
      (map outline next.results ≡ map outline l.results ++ map (expected not_ready) done)
      × (next.controlled ≡ l.controlled ++ filter (eligible not_ready) done)

  pub nothing_added :
      (l next : Launch) → next.results ≡ l.results → next.controlled ≡ l.controlled → Adds [] l next
  nothing_added l next e f = (
    ap (map outline) e ∙ sym (append-nil (map outline l.results)),
    f ∙ sym (append-nil l.controlled),
  )

  all_added :
      (xs ys : List Service) (l mid next : Launch)
      → Adds xs l mid
      → Adds ys mid next
      → Adds (xs ++ ys) l next
  all_added xs ys l mid next (a, c) (b, d) = (
    b
        ∙ ap (λ t. t ++ map (expected not_ready) ys) a
        ∙ append_assoc (map outline l.results) (map (expected not_ready) xs)
            (map (expected not_ready) ys)
        ∙ ap (λ t. map outline l.results ++ t) (sym (map-append (expected not_ready) xs ys)),
    d
        ∙ ap (λ t. t ++ filter (eligible not_ready) ys) c
        ∙ append_assoc l.controlled (filter (eligible not_ready) xs)
            (filter (eligible not_ready) ys)
        ∙ ap (λ t. l.controlled ++ t) (sym (filter-append (eligible not_ready) xs ys)),
  )

  item_of-outline : (s : Service) (o : ControlOutcome) → outline (item_of s o) ≡ (s.code, false)
  unfolding item_of
  item_of-outline s (control_ok stdout) = refl
  item_of-outline s (control_failed stderr) = refl
  item_of-outline s (control_threw message) = refl

  pub ask-IsCaused : (l : Launch) → IsCaused (ask control should_stop l)
  unfolding ask
  ask-IsCaused l = elim (Bool-cases (should_stop l.asked)) [
    | inl stop ↦ inr (l.asked, refl, stop)
    | inr go ↦ inl go
  ]

  pushed-Adds :
      (s : Service) (o : ControlOutcome) (l : Launch)
      → eligible not_ready s ≡ true
      → (map outline (l.results ++ item_of s o ∷ [])
          ≡ map outline l.results ++ map (expected not_ready) (s ∷ []))
        × (l.controlled ++ s ∷ [] ≡ l.controlled ++ filter (eligible not_ready) (s ∷ []))
  pushed-Adds s o l e = (
    map-append outline l.results (item_of s o ∷ [])
        ∙ ap (λ x. map outline l.results ++ x ∷ []) (item_of-outline s o ∙ rw e refl),
    rw e refl,
  )

  control_service-Adds :
      (s : Service) (l : Launch)
      → eligible not_ready s ≡ true
      → IsCaused l
      → Adds (s ∷ []) l (control_service control should_stop s l)
        × IsCaused (control_service control should_stop s l)
  unfolding control_service ask
  control_service-Adds s l e c =
      let outcome = control (length l.controlled) s in
      elim (Bool-cases (asks_after outcome)) [
        | inl asks ↦ rw asks (
          pushed-Adds s outcome l e,
          ask-IsCaused (record l {
            results = l.results ++ item_of s outcome ∷ [];
            controlled = l.controlled ++ s ∷ [];
          }),
        )
        | inr threw ↦ rw threw (pushed-Adds s outcome l e, c)
      ]

  skipped-Adds :
      (s : Service) (message : String) (l : Launch)
      → eligible not_ready s ≡ false
      → Adds (s ∷ []) l (record l { results = l.results ++ skip_item s message ∷ [] })
  skipped-Adds s message l e = (
    map-append outline l.results (skip_item s message ∷ [])
        ∙ ap (λ x. map outline l.results ++ x ∷ []) (rw e refl),
    rw e (sym (append-nil l.controlled)),
  )

  launch_service-Adds :
      (s : Service) (l : Launch)
      → IsCaused l
      → Adds (s ∷ []) l (launch_service control should_stop not_ready s l)
        × IsCaused (launch_service control should_stop not_ready s l)
  unfolding launch_service
  launch_service-Adds s l c =
      let Good = λ (n : Launch). Adds (s ∷ []) l n × IsCaused n in
      if_elim Good s.disabled _ _ (λ off. (skipped-Adds s "disabled in catalog" l (rw off refl), c))
        (λ enabled.
          if_elim Good (has not_ready s.code) _ _
            (λ missing. (skipped-Adds s "preflight not ready" l (rw (enabled, missing) refl), c))
            (λ ready. control_service-Adds s l (rw (enabled, ready) refl) c))

  -- The services are done up to some point, which is the end unless the loops were left there.
  pub record Runs (services : List Service) (l next : Launch) : Type 0 where
    pub done : List Service
    pub rest : List Service
    pub split : services ≡ done ++ rest
    pub adds : Adds done l next
    pub caused : IsCaused next
    pub ends : (rest ≡ []) ⊎ (next.left ≡ true)

  -- The loops are left before the next service.
  pub stops :
      (services : List Service) (l next : Launch)
      → next.results ≡ l.results
      → next.controlled ≡ l.controlled
      → IsCaused next
      → next.left ≡ true
      → Runs services l next
  stops services l next e f c h = record {
    done = [];
    rest = services;
    split = refl;
    adds = nothing_added l next e f;
    caused = c;
    ends = inr h;
  }

  pub joins :
      (first services : List Service) (l mid next : Launch)
      → Adds first l mid
      → Runs services mid next
      → Runs (first ++ services) l next
  joins first services l mid next a r = record {
    done = first ++ r.done;
    rest = r.rest;
    split = ap (λ t. first ++ t) r.split ∙ sym (append_assoc first r.done r.rest);
    adds = all_added first r.done l mid next a r.adds;
    caused = r.caused;
    ends = r.ends;
  }

  -- One run after the other, the second of which does nothing where the first was left.
  pub one_after_other :
      (first services : List Service) (l mid next : Launch)
      → Runs first l mid
      → Runs services mid next
      → (mid.left ≡ true → next ≡ mid)
      → Runs (first ++ services) l next
  one_after_other first services l mid next r q same = elim r.ends [
    | inl whole ↦
        let all : first ≡ r.done = r.split ∙ ap (λ t. r.done ++ t) whole ∙ append-nil r.done in
        joins first services l mid next (subst (λ t. Adds t l mid) (sym all) r.adds) q
    | inr left ↦ record {
      done = r.done;
      rest = r.rest ++ services;
      split = ap (λ t. t ++ services) r.split ∙ append_assoc r.done r.rest services;
      adds = subst (Adds r.done l) (sym (same left)) r.adds;
      caused = q.caused;
      ends = inr (ap (λ n. n.left) (same left) ∙ left);
    }
  ]

  pub launch_services-Runs :
      (services : List Service) (l : Launch)
      → IsCaused l
      → Runs services l (launch_services control should_stop not_ready services l)
  unfolding launch_services ask
  launch_services-Runs [] l c = record {
    done = [];
    rest = [];
    split = refl;
    adds = nothing_added l l refl refl;
    caused = c;
    ends = inl refl;
  }
  launch_services-Runs (s ∷ services) l c =
      let asked = ask control should_stop l in
      let launched = launch_service control should_stop not_ready s asked in
      let Good = Runs (s ∷ services) l in
      let one = launch_service-Adds s asked (ask-IsCaused l) in
      if_elim Good l.left _ _ (λ left. stops (s ∷ services) l l refl refl c left)
        (λ going.
          if_elim Good asked.left _ _
            (λ left. stops (s ∷ services) l asked refl refl (ask-IsCaused l) left)
            (λ goes_on.
              joins (s ∷ []) services l launched _ one.0
                (launch_services-Runs services launched one.1)))
