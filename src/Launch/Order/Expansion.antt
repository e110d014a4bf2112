-- ===== src/Launch/Order/Expansion.antt =====
-- src/launch/order.ts: `expandWithDependencies` on any catalog, its depth bound and its output.
pub mod Acyclic
use excubitor.Prelude.{
  ℕ, zero, suc, ◌+◌, ◌≤◌, ◌<◌, ◌≡◌, refl, ap, ◌∙◌, ◌≢◌, String, str_eq, eq_iff, List, [], ◌∷◌, ◌++◌,
  Option, none, some, Bool, true, false, ◌||◌, if◌then◌else◌, length, arith, any, Bool-cases,
  Option-cases, inl, inr, All, All-mono,
}
use excubitor.Launch.Order.{
  Service, Walk, has, by_code, deps_of, delete, visit_each, leave, visit, expand_with_dependencies,
}
use excubitor.Launch.Order.Sets.{
  has-append, delete_absent, has-cons_self, IsDistinct, snoc-IsDistinct, delete-cons_self, free,
  free-nil, free-cons_lt,
}

module _ (services : List Service) where
  -- A code that has been dealt with, or is being dealt with further out.
  abbrev reached : Walk → String → Bool
  reached w c = has w.seen c || has w.visiting c

  record IsSound (w : Walk) : Type 0 where
    same : (c : String) → has w.out c ≡ has w.seen c
    apart : (c : String) → has w.visiting c ≡ true → has w.seen c ≡ false
    distinct : IsDistinct w.out
    closed : (c : String) → has w.seen c ≡ true → All (λ d. reached w d ≡ true) (deps_of services c)

  -- What a finished visit, or row of visits, has done.
  record Grown (w w' : Walk) : Type 0 where
    sound : IsSound w'
    back : w'.visiting ≡ w.visiting
    grows : (c : String) → has w.seen c ≡ true → has w'.seen c ≡ true

  Grown-trans : {u v w : Walk} → Grown u v → Grown v w → Grown u w
  Grown-trans g h = record {
    sound = h.sound;
    back = h.back ∙ g.back;
    grows = λ c e. h.grows c (g.grows c e);
  }

  reached_grows : {w w' : Walk} (c : String) → Grown w w' → reached w c ≡ true → reached w' c ≡ true
  reached_grows {w} {w'} c g h = ground (arith, g.back, g.grows c)

  -- What `visit` promises while at most `n` catalog entries are free.
  abbrev Visits : ℕ → (String → Walk → Walk) → Type 0
  Visits n step =
      (code : String) (w : Walk)
      → IsSound w
      → free services w.visiting ≤ n
      → Grown w (step code w) × (reached (step code w) code ≡ true)

  module _ (step : String → Walk → Walk) (n : ℕ) (go : Visits n step) where
    visit_each-Grown :
        (codes : List String) (w : Walk)
        → IsSound w
        → free services w.visiting ≤ n
        → Grown w (visit_each step codes w)
          × All (λ c. reached (visit_each step codes w) c ≡ true) codes
    unfolding visit_each
    visit_each-Grown [] w s f = (record { sound = s; back = refl; grows = λ c e. e }, tt)
    visit_each-Grown (code ∷ codes) w s f =
        let (g, r) = go code w s f in
        let (h, rs) = visit_each-Grown codes (step code w) g.sound (rw g.back f) in
        (Grown-trans g h, (reached_grows code h r, rs))

  -- The walk after the dependencies of `code`, before `code` is put out.
  module _ (code : String) (w u : Walk) (fresh : reached w code ≡ false)
      (walked : Grown (record w { visiting = code ∷ w.visiting }) u)
      (served : All (λ c. reached u c ≡ true) (deps_of services code)) where
    not_visiting : has w.visiting code ≡ false
    not_visiting = ground (arith, fresh)

    left : delete code u.visiting ≡ w.visiting
    left = rw walked.back (delete-cons_self code w.visiting not_visiting)

    unseen : has u.seen code ≡ false
    unseen = walked.sound.apart code (rw walked.back (has-cons_self code w.visiting))

    still_reached : (d : String) → reached u d ≡ true → reached (leave code u) d ≡ true
    unfolding leave
    still_reached d h = let h' = rw walked.back at h in rw left (ground (arith, h'))

    leave-IsSound : IsSound (leave code u)
    unfolding leave
    leave-IsSound = record {
      same = λ c. ground (arith, has-append u.out (code ∷ []) c, walked.sound.same c);
      apart = λ c h.
          let h' = rw left at h in
          let outer : has u.seen c ≡ false =
            walked.sound.apart c (rw walked.back (ground (arith, h'))) in
          ground (arith, outer, not_visiting, h', eq_iff code c);
      distinct = snoc-IsDistinct u.out code walked.sound.distinct (walked.sound.same code ∙ unseen);
      closed = λ c h. elim (Bool-cases (str_eq code c)) [
        | inl here ↦
            rw (← (eq_iff code c).0 here) (All-mono still_reached (deps_of services code) served)
        | inr other ↦
            All-mono still_reached (deps_of services c)
              (walked.sound.closed c (ground (arith, h, other)))
      ];
    }

    leave-Grown : Grown w (leave code u) × (reached (leave code u) code ≡ true)
    unfolding leave
    leave-Grown = (
      record {
        sound = leave-IsSound;
        back = left;
        grows = λ c h. ground (arith, walked.grows c h);
      },
      ground (arith, eq_iff code code),
    )

  enter-IsSound :
      (code : String) (w : Walk)
      → reached w code ≡ false
      → IsSound w
      → IsSound (record w { visiting = code ∷ w.visiting })
  enter-IsSound code w h s = record {
    same = s.same;
    apart = λ c e. ground (arith, s.apart c, eq_iff code c);
    distinct = s.distinct;
    closed = λ c e. All-mono (λ d r. ground (arith, r)) (deps_of services c) (s.closed c e);
  }

  deps_of_unknown : (code : String) → by_code services code ≡ none → deps_of services code ≡ []
  unfolding deps_of
  deps_of_unknown code e = rw (e, deps_of)

  Grown-refl : {w : Walk} → IsSound w → Grown w w
  Grown-refl s = record { sound = s; back = refl; grows = λ c h. h }

  -- The walk over the dependencies, for a depth at which no further entry would be free.
  module _ (n : ℕ) (code : String) (w : Walk) (s : IsSound w) (fresh : reached w code ≡ false) where
    abbrev entered : Walk
    entered = record w { visiting = code ∷ w.visiting }

    abbrev DepsWalked : Type 0
    DepsWalked =
        let u = visit_each (visit n services) (deps_of services code) entered in
        Grown entered u × All (λ c. reached u c ≡ true) (deps_of services code)

    walk_unknown : by_code services code ≡ none → DepsWalked
    unfolding visit_each
    walk_unknown e = rw (deps_of_unknown code e) (Grown-refl (enter-IsSound code w fresh s), tt)

    visit-Grown :
        DepsWalked
        → Grown w (visit (suc n) services code w)
          × (reached (visit (suc n) services code w) code ≡ true)
    unfolding visit
    visit-Grown (g, all) = rw fresh (leave-Grown code w _ fresh g all)

  visit_old :
      (n : ℕ) (code : String) (w : Walk)
      → IsSound w
      → reached w code ≡ true
      → Grown w (visit (suc n) services code w)
        × (reached (visit (suc n) services code w) code ≡ true)
  unfolding visit
  visit_old n code w s old = rw old (Grown-refl s, old)

  known_lt :
      (code : String) (w : Walk) {s : Service}
      → reached w code ≡ false
      → by_code services code ≡ some s
      → free services (code ∷ w.visiting) < free services w.visiting
  known_lt code w fresh e = free-cons_lt services w.visiting code (ground (arith, fresh)) (λ h. cc)

  visit-Visits : (n : ℕ) → Visits n (visit (suc n) services)
  visit-Visits zero code w s f = elim (Bool-cases (reached w code)) [
    | inl old ↦ visit_old zero code w s old
    | inr fresh ↦ elim (Option-cases (by_code services code)) [
      | inl unknown ↦ visit-Grown zero code w s fresh (walk_unknown zero code w s fresh unknown)
      | inr (known, e) ↦ absurd (omega (arith, known_lt code w fresh e))
    ]
  ]
  visit-Visits (suc n) code w s f = elim (Bool-cases (reached w code)) [
    | inl old ↦ visit_old (suc n) code w s old
    | inr fresh ↦ visit-Grown (suc n) code w s fresh (elim (Option-cases (by_code services code)) [
      | inl unknown ↦ walk_unknown (suc n) code w s fresh unknown
      | inr (known, e) ↦
          visit_each-Grown (visit (suc n) services) n (visit-Visits n) (deps_of services code)
            (record w { visiting = code ∷ w.visiting }) (enter-IsSound code w fresh s)
            (omega (arith, known_lt code w fresh e))
    ])
  ]

  abbrev start : Walk
  start = record { out = []; seen = []; visiting = [] }

  start-IsSound : IsSound start
  start-IsSound = record {
    same = λ c. refl;
    apart = λ c h. refl;
    distinct = tt;
    closed = λ c h. cc;
  }

  -- The codes to start: no code twice, every requested code, and with each code its dependencies.
  pub expand_with_dependencies-closed :
      (codes : List String)
      → let out = expand_with_dependencies services codes in
        IsDistinct out
        × All (λ c. has out c ≡ true) codes
        × ((c : String) → has out c ≡ true → All (λ d. has out d ≡ true) (deps_of services c))
  unfolding expand_with_dependencies
  expand_with_dependencies-closed codes =
      let (g, all) =
        visit_each-Grown (visit (suc (length services)) services) (length services)
          (visit-Visits (length services)) codes start start-IsSound
          (rw (free-nil services) (omega arith)) in
      let out : (c : String)
          → reached (visit_each (visit (suc (length services)) services) codes start) c ≡ true
          → has (visit_each (visit (suc (length services)) services) codes start).out c ≡ true =
        λ c r. g.sound.same c ∙ ground (arith, rw g.back at r) in
      (
        g.sound.distinct,
        All-mono out codes all,
        λ c h.
            All-mono out (deps_of services c) (g.sound.closed c (ground (arith, g.sound.same c))),
      )
