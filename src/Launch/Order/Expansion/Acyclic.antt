-- ===== src/Launch/Order/Expansion/Acyclic.antt =====
-- src/launch/order.ts: `expandWithDependencies` on a catalog without cycles.
use mathlib.Core.List.{append-nil, append_assoc}
use excubitor.Prelude.{
  ◌≤◌, ℕ, zero, suc, ◌<◌, ◌≡◌, String, eq_iff, List, [], ◌∷◌, ◌++◌, true, false, length, arith,
  Bool-cases, Option-cases, none, inl, inr, All, All-mono, All-of, All-both,
}
use excubitor.Launch.Order.{
  Service, Walk, has, by_code, deps_of, visit_each, leave, visit, expand_with_dependencies,
}
use excubitor.Launch.Order.Sets.{free, free-nil}
use excubitor.Launch.Order.Expansion.{
  reached, IsSound, Grown, Visits, visit_each-Grown, visit-Visits, enter-IsSound, deps_of_unknown,
  known_lt, start, start-IsSound, walk_unknown, DepsWalked,
}

module _ (services : List Service) where
  -- Each code of `cs` comes after its dependencies, where those of `before` have come already.
  abbrev pub DepsFirst : List String → List String → Type 0
  DepsFirst before [] = Unit {0}
  DepsFirst before (c ∷ cs) =
      All (λ d. has before d ≡ true) (deps_of services c) × DepsFirst (before ++ c ∷ []) cs

  snoc-DepsFirst :
      (before cs : List String) (c : String)
      → DepsFirst before cs
      → All (λ d. has (before ++ cs) d ≡ true) (deps_of services c)
      → DepsFirst before (cs ++ c ∷ [])
  snoc-DepsFirst before [] c o a =
      (All-mono (λ d h. rw (append-nil before) at h) (deps_of services c) a, tt)
  snoc-DepsFirst before (x ∷ cs) c o a = (
    o.0,
    snoc-DepsFirst (before ++ x ∷ []) cs c o.1
        (All-mono (λ d h. rw (append_assoc before (x ∷ []) cs) h) (deps_of services c) a),
  )

  module _ (rank : String → ℕ)
      (acyclic : (c : String) → All (λ d. rank d < rank c) (deps_of services c)) where
    -- Every code that is being visited is of a higher rank.
    abbrev Below : String → Walk → Type 0
    Below c w = (v : String) → has w.visiting v ≡ true → rank c < rank v

    abbrev KeepsOrder : ℕ → (String → Walk → Walk) → Type 0
    KeepsOrder n step =
        (code : String) (w : Walk)
        → IsSound services w
        → free services w.visiting ≤ n
        → Below code w
        → DepsFirst [] w.out
        → DepsFirst [] (step code w).out

    visit_each-DepsFirst :
        (step : String → Walk → Walk) (n : ℕ) (codes : List String) (w : Walk)
        → Visits services n step
        → KeepsOrder n step
        → IsSound services w
        → free services w.visiting ≤ n
        → All (λ c. Below c w) codes
        → DepsFirst [] w.out
        → DepsFirst [] (visit_each step codes w).out
    unfolding visit_each
    visit_each-DepsFirst step n [] w go keep s f b o = o
    visit_each-DepsFirst step n (code ∷ codes) w go keep s f b o =
        let (g, r) = go code w s f in
        visit_each-DepsFirst step n codes (step code w) go keep g.sound (rw g.back f)
          (All-mono (λ c below v h. below v (rw g.back at h)) codes b.1) (keep code w s f b.0 o)

    entered-Below :
        (code : String) (w : Walk) (ds : List String)
        → Below code w
        → All (λ d. rank d < rank code) ds
        → All (λ d. Below d (record w { visiting = code ∷ w.visiting })) ds
    entered-Below code w ds b = All-mono (λ d lt v h. ground (arith, eq_iff code v, b v)) ds

    leave-DepsFirst :
        (code : String) (w u : Walk)
        → Below code w
        → Grown services (record w { visiting = code ∷ w.visiting }) u
        → All (λ c. reached services u c ≡ true) (deps_of services code)
        → DepsFirst [] u.out
        → DepsFirst [] (leave code u).out
    unfolding leave
    leave-DepsFirst code w u b g all o = snoc-DepsFirst [] u.out code o (
        All-both
          (λ d lt r.
            let r' = rw g.back at r in ground (arith, g.sound.same d, b d, eq_iff code d, r', lt))
          (deps_of services code) (acyclic code) all)

    module _ (n : ℕ) (code : String) (w : Walk) (s : IsSound services w) (b : Below code w)
        (o : DepsFirst [] w.out) where
      visit_old_order :
          reached services w code ≡ true → DepsFirst [] (visit (suc n) services code w).out
      unfolding visit
      visit_old_order old = rw old o

      visit_order :
          (fresh : reached services w code ≡ false)
          → DepsWalked services n code w s fresh
          → DepsFirst []
              (visit_each
                (visit n services)
                (deps_of services code)
                (record w { visiting = code ∷ w.visiting })).out
          → DepsFirst [] (visit (suc n) services code w).out
      unfolding visit
      visit_order fresh (g, all) walked = rw fresh (leave-DepsFirst code w _ b g all walked)

      visit_unknown_order :
          reached services w code ≡ false
          → by_code services code ≡ none
          → DepsFirst [] (visit (suc n) services code w).out
      unfolding visit_each
      visit_unknown_order fresh e =
          visit_order fresh (walk_unknown services n code w s fresh e)
            (rw (deps_of_unknown services code e) o)

    visit-KeepsOrder : (n : ℕ) → KeepsOrder n (visit (suc n) services)
    visit-KeepsOrder zero code w s f b o = elim (Bool-cases (reached services w code)) [
      | inl old ↦ visit_old_order zero code w s b o old
      | inr fresh ↦ elim (Option-cases (by_code services code)) [
        | inl unknown ↦ visit_unknown_order zero code w s b o fresh unknown
        | inr (known, e) ↦ absurd (omega (arith, known_lt services code w fresh e))
      ]
    ]
    visit-KeepsOrder (suc n) code w s f b o = elim (Bool-cases (reached services w code)) [
      | inl old ↦ visit_old_order (suc n) code w s b o old
      | inr fresh ↦ elim (Option-cases (by_code services code)) [
        | inl unknown ↦ visit_unknown_order (suc n) code w s b o fresh unknown
        | inr (known, e) ↦
            let inside = enter-IsSound services code w fresh s in
            let room : free services (code ∷ w.visiting) ≤ n =
              omega (arith, known_lt services code w fresh e) in
            visit_order (suc n) code w s b o fresh
              (visit_each-Grown services (visit (suc n) services) n (visit-Visits services n)
                (deps_of services code) (record w { visiting = code ∷ w.visiting }) inside room)
              (visit_each-DepsFirst (visit (suc n) services) n (deps_of services code)
                (record w { visiting = code ∷ w.visiting }) (visit-Visits services n)
                (visit-KeepsOrder n) inside room
                (entered-Below code w (deps_of services code) b (acyclic code)) o)
      ]
    ]

    -- If every dependency is of a lower rank than its service, so that there is no cycle, each
    -- code in the output comes after all its dependencies.
    pub expand_with_dependencies-DepsFirst :
        (codes : List String) → DepsFirst [] (expand_with_dependencies services codes)
    unfolding expand_with_dependencies
    expand_with_dependencies-DepsFirst codes =
        visit_each-DepsFirst (visit (suc (length services)) services) (length services) codes
          (start services) (visit-Visits services (length services))
          (visit-KeepsOrder (length services)) (start-IsSound services)
          (rw (free-nil services) (omega arith)) (All-of (λ c v h. cc) codes) tt
