-- ===== src/Launch/Order/Tiers.antt =====
-- src/launch/order.ts: what `orderForStart` and `orderForStop` put into their tiers.
pub mod Ascending
use mathlib.Core.List.{append-nil, append_assoc, perm_middle, perm_append_comm, reverse-cons}
use mathlib.Core.List.Perm
use excubitor.Prelude.{
  ℕ, ◌≤◌, ◌<◌, ◌≡◌, ◌≢◌, refl, sym, ◌∙◌, String, List, [], ◌∷◌, ◌++◌, Bool, true, false, ◌==◌, leb,
  if◌then◌else◌, arith, Bool-cases, inl, inr, All, All-mono, All-both, filter, map, reverse,
}
use mathlib.Core.List.{Perm}
use excubitor.Prelude.Sorting.{
  insert_by, sort_by, IsSorted, sort_by-perm, sort_by-IsSorted, All-sort_by, All-insert_by,
}
use excubitor.Launch.Order.{
  Service, OrderedTier, has, start_tier, code_order, add_to_bucket, fill_buckets, sort_services,
  order_for_start, order_for_stop, all_services,
}

abbrev by_tier : OrderedTier → ℕ
by_tier t = t.tier

add_to_bucket-perm :
    (t : ℕ) (s : Service) (bs : List OrderedTier)
    → Perm (all_services (add_to_bucket t s bs)) (s ∷ all_services bs)
unfolding add_to_bucket
add_to_bucket-perm t s [] = Perm.refl (s ∷ [])
add_to_bucket-perm t s (b ∷ bs) = elim (Bool-cases (b.tier == t)) [
  | inl same ↦
      rw (same, append_assoc b.services (s ∷ []) (all_services bs))
        (perm_middle b.services (all_services bs))
  | inr other ↦ rw other (
      Perm.trans (Perm.append_left b.services (add_to_bucket-perm t s bs))
        (perm_middle b.services (all_services bs)))
]

fill_buckets-perm :
    (codes : List String) (ss : List Service) (bs : List OrderedTier)
    → Perm
        (all_services (fill_buckets codes ss bs))
        (filter (λ s. has codes s.code) ss ++ all_services bs)
unfolding fill_buckets
fill_buckets-perm codes [] bs = Perm.refl (all_services bs)
fill_buckets-perm codes (s ∷ ss) bs = elim (Bool-cases (has codes s.code)) [
  | inl wanted ↦ rw wanted (
      Perm.trans (fill_buckets-perm codes ss (add_to_bucket (start_tier s) s bs)) (
        Perm.trans
          (Perm.append_left (filter (λ s. has codes s.code) ss)
            (add_to_bucket-perm (start_tier s) s bs))
          (perm_middle (filter (λ s. has codes s.code) ss) (all_services bs))))
  | inr skipped ↦ rw skipped (fill_buckets-perm codes ss bs)
]

-- The services of two tiers change places.
append_swap : (xs ys zs : List Service) → Perm (xs ++ (ys ++ zs)) (ys ++ (xs ++ zs))
append_swap xs ys zs =
    rw (← append_assoc xs ys zs, ← append_assoc ys xs zs)
      (Perm.append_right zs (perm_append_comm xs ys))

insert_tier-perm :
    (t : OrderedTier) (ts : List OrderedTier)
    → Perm (all_services (insert_by by_tier t ts)) (t.services ++ all_services ts)
unfolding insert_by
insert_tier-perm t [] = Perm.refl (all_services (t ∷ []))
insert_tier-perm t (u ∷ us) = elim (Bool-cases (leb t.tier u.tier)) [
  | inl first ↦ rw first (Perm.refl (all_services (t ∷ u ∷ us)))
  | inr later ↦ rw later (
      Perm.trans (Perm.append_left u.services (insert_tier-perm t us))
        (append_swap u.services t.services (all_services us)))
]

sort_tiers-perm :
    (ts : List OrderedTier) → Perm (all_services (sort_by by_tier ts)) (all_services ts)
unfolding sort_by
sort_tiers-perm [] = Perm.refl []
sort_tiers-perm (t ∷ ts) =
    Perm.trans (insert_tier-perm t (sort_by by_tier ts))
      (Perm.append_left t.services (sort_tiers-perm ts))

sort_services-perm :
    (codes : List String) (ts : List OrderedTier)
    → Perm (all_services (map (sort_services codes) ts)) (all_services ts)
unfolding sort_services
sort_services-perm codes [] = Perm.refl []
sort_services-perm codes (t ∷ ts) =
    Perm.append (sort_by-perm (λ (s : Service). code_order codes s.code) t.services)
      (sort_services-perm codes ts)

-- The tiers hold exactly the catalog's services that are asked for, each as often as the catalog.
pub order_for_start-perm :
    (services : List Service) (codes : List String)
    → Perm (all_services (order_for_start services codes)) (filter (λ s. has codes s.code) services)
unfolding order_for_start
order_for_start-perm services codes =
    Perm.trans (sort_services-perm codes (sort_by by_tier (fill_buckets codes services []))) (
      Perm.trans (sort_tiers-perm (fill_buckets codes services []))
        (rw append-nil at (fill_buckets-perm codes services [])))
