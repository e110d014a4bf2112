-- ===== src/Launch/Tests.antt =====
-- Start order on a small catalog, and the theorems at inputs that meet their hypotheses.
use excubitor.Prelude.{
  ℕ, Bool-cases, inl, inr, map, eq_iff, ◌≡◌, refl, String, str_eq, List, [], ◌∷◌, none, false, ◌<◌,
  arith, All, if◌then◌else◌,
}
use excubitor.Launch.Order.{Service, expand_with_dependencies, deps_of}
use mathlib.Core.List.{Perm}
use excubitor.Launch.Order.{all_services, order_for_start, order_for_stop}
use excubitor.Launch.Order.Tiers.{order_for_start-perm}
use excubitor.Launch.Order.Tiers.Ascending.{Ascending}
use excubitor.Launch.Order.Sets.{IsDistinct}
use excubitor.Launch.Order.Expansion.{expand_with_dependencies-closed}
use excubitor.Launch.Order.Expansion.Acyclic.{DepsFirst, expand_with_dependencies-DepsFirst}

abbrev svc : String → List String → Service
svc code deps = record {
  code = code;
  project_code = none;
  uses_corpus = false;
  depends_on = deps;
  disabled = false;
}

abbrev catalog : List Service
catalog = svc "web" ("api" ∷ "db" ∷ []) ∷ svc "api" ("db" ∷ "infra" ∷ []) ∷ svc "db" [] ∷ []

abbrev platform : List Service
platform = svc "corpus" [] ∷ svc "web" [] ∷ svc "infra" [] ∷ []

abbrev cyclic : List Service
cyclic = svc "a" ("b" ∷ []) ∷ svc "b" ("a" ∷ []) ∷ []

expand_run :
    expand_with_dependencies catalog ("web" ∷ "api" ∷ []) ≡ "db" ∷ "infra" ∷ "api" ∷ "web" ∷ []
unfolding expand_with_dependencies
expand_run = refl

expand_cycle : expand_with_dependencies cyclic ("a" ∷ []) ≡ "b" ∷ "a" ∷ []
unfolding expand_with_dependencies
expand_cycle = refl

expand_with_dependencies-closed_example : IsDistinct (expand_with_dependencies catalog ("web" ∷ []))
expand_with_dependencies-closed_example = (expand_with_dependencies-closed catalog ("web" ∷ [])).0

-- A rank under which each dependency of `catalog` is lower than its service.
abbrev rank : String → ℕ
rank code = if str_eq code "web" then 2 else if str_eq code "api" then 1 else 0

other_deps :
    (c : String)
    → str_eq "db" c ≡ false
    → str_eq "api" c ≡ false
    → str_eq "web" c ≡ false
    → deps_of catalog c ≡ []
unfolding deps_of
other_deps c db api web = ground arith

catalog_acyclic : (c : String) → All (λ d. rank d < rank c) (deps_of catalog c)
unfolding deps_of
catalog_acyclic c = elim (Bool-cases (str_eq "db" c)) [
  | inl db ↦ rw (← (eq_iff "db" c).0 db) tt
  | inr not_db ↦ elim (Bool-cases (str_eq "api" c)) [
    | inl api ↦ rw (← (eq_iff "api" c).0 api) (omega arith)
    | inr not_api ↦ elim (Bool-cases (str_eq "web" c)) [
      | inl web ↦ rw (← (eq_iff "web" c).0 web) (omega arith)
      | inr not_web ↦ rw (other_deps c not_db not_api not_web) tt
    ]
  ]
]

expand_with_dependencies-DepsFirst_example :
    DepsFirst catalog [] (expand_with_dependencies catalog ("web" ∷ []))
expand_with_dependencies-DepsFirst_example =
    expand_with_dependencies-DepsFirst catalog rank catalog_acyclic ("web" ∷ [])

order_for_start-perm_example :
    Perm
      (all_services (order_for_start catalog ("web" ∷ "db" ∷ [])))
      (svc "web" ("api" ∷ "db" ∷ []) ∷ svc "db" [] ∷ [])
order_for_start-perm_example = order_for_start-perm catalog ("web" ∷ "db" ∷ [])

stop_run :
    map (λ (s : Service). s.code) (order_for_stop platform ("web" ∷ "corpus" ∷ "infra" ∷ []))
    ≡ "web" ∷ "corpus" ∷ "infra" ∷ []
unfolding order_for_stop
stop_run = refl
