-- ===== src/Launch/Order.antt =====
-- src/launch/order.ts: start tiers, dependency expansion and the order of starting and stopping.
-- Of a catalog service only the fields that these functions read are kept.
pub mod Sets
pub mod Expansion
pub mod Tiers
pub use excubitor.Prelude.Sets.{has}
use excubitor.Prelude.Sorting.{sort_by}
use excubitor.Prelude.{
  filter, ◌==◌, ℕ, suc, zero, ◌+◌, String, str_eq, List, [], ◌∷◌, ◌++◌, Option, none, some, Bool,
  true, false, ◌||◌, ltb, if◌then◌else◌, length, reverse, any, map,
}

pub record Service : Type 0 where
  pub code : String
  pub project_code : Option String
  pub uses_corpus : Bool
  pub depends_on : List String
  pub disabled : Bool

-- `TIER_BY_PROJECT`
abbrev tier_by_project : String → Option ℕ
tier_by_project key =
    if str_eq key "infra"
    then some 0
    else if str_eq key "cernere"
    then some 1
    else if str_eq key "corpus"
    then some 2
    else none

abbrev project_key : Service → String
project_key s = elim s.project_code [ none ↦ s.code | some p ↦ p ]

unfoldable pub start_tier : Service → ℕ
start_tier s = elim (tier_by_project (project_key s)) [
  | some t ↦ t
  | none ↦ if s.uses_corpus then 3 else 5
]

-- `new Map(services.map((svc) => [svc.code, svc])).get(code)`: the last service with the code.
unfoldable pub by_code : List Service → String → Option Service
by_code [] code = none
by_code (s ∷ ss) code = elim (by_code ss code) [
  | some later ↦ some later
  | none ↦ if str_eq s.code code then some s else none
]

-- `byCode.get(code)?.depends_on ?? []`
unfoldable pub deps_of : List Service → String → List String
unfolding by_code
deps_of services code = elim (by_code services code) [ none ↦ [] | some s ↦ s.depends_on ]

-- The sets and the output of `expandWithDependencies`. `visiting` is a stack: a visit adds its code
-- on entry and takes it out on exit.
pub record Walk : Type 0 where
  pub out : List String
  pub seen : List String
  pub visiting : List String

unfoldable pub delete : String → List String → List String
delete code [] = []
delete code (c ∷ cs) = if str_eq c code then delete code cs else c ∷ delete code cs

unfoldable pub visit_each : (String → Walk → Walk) → List String → Walk → Walk
visit_each visit [] w = w
visit_each visit (code ∷ codes) w = visit_each visit codes (visit code w)

unfoldable pub leave : String → Walk → Walk
unfolding delete
leave code w = record {
  out = w.out ++ code ∷ [];
  seen = code ∷ w.seen;
  visiting = delete code w.visiting;
}

-- `visit`, with a bound on the depth of the recursion.
unfoldable pub visit : ℕ → List Service → String → Walk → Walk
unfolding visit_each leave deps_of
visit zero services code w = w
visit (suc depth) services code w =
    let entered = record w { visiting = code ∷ w.visiting } in
    let walked = leave code (visit_each (visit depth services) (deps_of services code) entered) in
    if has w.seen code || has w.visiting code then w else walked

-- The bound is one more than the number of catalog entries: the codes being visited are distinct,
-- and all but the innermost have dependencies, so they are in the catalog.
unfoldable pub expand_with_dependencies : List Service → List String → List String
unfolding visit visit_each
expand_with_dependencies services codes =
    (visit_each (visit (suc (length services)) services) codes
      (record { out = []; seen = []; visiting = [] })).out

pub record OrderedTier : Type 0 where
  pub tier : ℕ
  pub services : List Service

-- The loop that fills `codeOrder`, from the index `i` on: of a code that stands twice the last
-- index counts.
unfoldable pub code_order_from : ℕ → List String → String → Option ℕ
code_order_from i [] code = none
code_order_from i (c ∷ cs) code = elim (code_order_from (i + 1) cs code) [
  | some later ↦ some later
  | none ↦ if str_eq c code then some i else none
]

-- `codeOrder.get(code) ?? 0`
unfoldable pub code_order : List String → String → ℕ
unfolding code_order_from
code_order codes code = elim (code_order_from 0 codes code) [ none ↦ 0 | some i ↦ i ]

-- A service joins the bucket of its tier, which is made when it is the first.
unfoldable pub add_to_bucket : ℕ → Service → List OrderedTier → List OrderedTier
add_to_bucket t s [] = record { tier = t; services = s ∷ [] } ∷ []
add_to_bucket t s (b ∷ bs) =
    if b.tier == t
    then record b { services = b.services ++ s ∷ [] } ∷ bs
    else b ∷ add_to_bucket t s bs

unfoldable pub fill_buckets : List String → List Service → List OrderedTier → List OrderedTier
unfolding add_to_bucket start_tier
fill_buckets codes [] buckets = buckets
fill_buckets codes (s ∷ ss) buckets =
    fill_buckets codes ss
      (if has codes s.code then add_to_bucket (start_tier s) s buckets else buckets)

unfoldable pub sort_services : List String → OrderedTier → OrderedTier
sort_services codes t = record t {
  services = sort_by (λ (s : Service). code_order codes s.code) t.services;
}

unfoldable pub order_for_start : List Service → List String → List OrderedTier
unfolding fill_buckets sort_services sort_by
order_for_start services codes =
    map (sort_services codes)
      (sort_by (λ (t : OrderedTier). t.tier) (fill_buckets codes services []))

-- `flatMap((t) => t.services)`
abbrev pub all_services : List OrderedTier → List Service
all_services [] = []
all_services (t ∷ ts) = t.services ++ all_services ts

unfoldable pub order_for_stop : List Service → List String → List Service
unfolding order_for_start
order_for_stop services codes = all_services (reverse (order_for_start services codes))
