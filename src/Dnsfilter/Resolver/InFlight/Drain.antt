-- ===== src/Dnsfilter/Resolver/InFlight/Drain.antt =====
-- src/dnsfilter/resolver.ts: the queries that are in flight settle, in an order that a schedule gives.
use excubitor.Prelude.{ℕ, zero, suc, ◌≡◌, List, [], ◌∷◌, ◌++◌, Option, length, All}
use excubitor.Dnsfilter.Resolver.{ResolverDeps, Reply, Pending, settle}
use excubitor.Dnsfilter.Resolver.Steps.{IsReply}
use excubitor.Dnsfilter.Resolver.InFlight.{System, depart, IsSound}

-- A query with those before and after it.
record Pick : Type 0 where
  front : List Pending
  chosen : Pending
  back : List Pending

-- The query at the index, or the last one.
unfoldable pick : ℕ → Pending → List Pending → Pick
pick i p [] = record { front = []; chosen = p; back = [] }
pick zero p (q ∷ queries) = record { front = []; chosen = p; back = q ∷ queries }
pick (suc i) p (q ∷ queries) =
    let rest = pick i q queries in
    record { front = p ∷ rest.front; chosen = rest.chosen; back = rest.back }

module _ (deps : ResolverDeps) (results : ℕ → Pending → ℕ × Option (List ℕ))
    (schedule : ℕ → ℕ) where
  -- The query of the schedule settles, at a time and with a result that are given.
  unfoldable settle_next : ℕ → List Pending → System → List Reply × System
  unfolding pick
  settle_next n [] s = ([], s)
  settle_next n (p ∷ queries) s =
      let c = pick (schedule n) p queries in
      let (now_ms, result) = results n c.chosen in
      (
        (settle deps c.chosen now_ms result s.resolver).1 ∷ [],
        depart deps c.front c.chosen c.back now_ms result s,
      )

  -- As many queries settle as is said, one after the other, and no packet arrives.
  unfoldable pub drain : ℕ → System → List Reply × System
  unfolding settle_next
  drain zero s = ([], s)
  drain (suc n) s =
      let (now, settled) = settle_next n s.pending s in
      let (later, end) = drain n settled in (now ++ later, end)

  -- One reply, and one query less.
  abbrev Settled : ℕ → List Reply × System → Type 0
  Settled n (replies, end) =
      (length replies ≡ 1) × All IsReply replies × IsSound deps end × (length end.pending ≡ n)

  -- All queries have settled, with a reply each.
  abbrev IsDrained : ℕ → List Reply × System → Type 0
  IsDrained n (replies, end) =
      (end.pending ≡ []) × (end.resolver.in_flight ≡ 0) × (length replies ≡ n) × All IsReply replies
