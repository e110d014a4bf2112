-- ===== src/Launch/Order/Tiers/Ascending.antt =====
-- src/launch/order.ts: the order of the tiers of `orderForStart`, and that within a tier.
use excubitor.Prelude.{◌<◌, ◌≡◌, ◌≢◌, String, List, [], ◌∷◌, All}
use excubitor.Prelude.Sorting.{IsSorted}
use excubitor.Launch.Order.{Service, OrderedTier, start_tier, code_order}

abbrev OfTier : OrderedTier → Type 0
OfTier t = All (λ s. start_tier s ≡ t.tier) t.services

abbrev DistinctTiers : List OrderedTier → Type 0
DistinctTiers [] = Unit {0}
DistinctTiers (t ∷ ts) = All (λ (u : OrderedTier). t.tier ≢ u.tier) ts × DistinctTiers ts

-- Each tier is lower than all that follow.
abbrev pub Ascending : List OrderedTier → Type 0
Ascending [] = Unit {0}
Ascending (t ∷ ts) = All (λ (u : OrderedTier). t.tier < u.tier) ts × Ascending ts

-- A tier of the result: services of that tier, in the order in which their codes are asked for.
abbrev pub IsTier : List String → OrderedTier → Type 0
IsTier codes t =
    All (λ s. start_tier s ≡ t.tier) t.services
    × IsSorted (λ (s : Service). code_order codes s.code) t.services
