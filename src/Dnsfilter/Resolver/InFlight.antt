-- ===== src/Dnsfilter/Resolver/InFlight.antt =====
-- src/dnsfilter/resolver.ts: packets that arrive and settle in any order, with any result of the server.
pub mod Drain
use excubitor.Prelude.{
  ℕ, ◌+◌, ◌≤◌, ◌≡◌, refl, ap, subst, ◌∙◌, List, [], ◌∷◌, ◌++◌, Option, length, length-append, All,
  All-append, arith,
}
use excubitor.Dnsfilter.DomainRules.{RuleBook}
use excubitor.Dnsfilter.QueryLog.{new}
use excubitor.Dnsfilter.Resolver.{
  ResolverDeps, Resolver, ClientInfo, Pending, Arrival, replied, forwarded, arrive, settle,
}
use excubitor.Dnsfilter.Resolver.Steps.{
  total, IsBalanced, IsAnswerable, IsArrival, arrive-IsArrival,
}
use excubitor.Dnsfilter.Resolver.Settles.{IsQuiet, settle-IsSettled}

-- The resolver, the queries that wait for the server, and how many packets have arrived.
pub record System : Type 0 where
  pub resolver : Resolver
  pub pending : List Pending
  pub arrived : ℕ

abbrev pub start : ℕ → System
start capacity = record {
  resolver = record { in_flight = 0; log = new capacity; answers = [] };
  pending = [];
  arrived = 0;
}

abbrev pub enter : Resolver × Arrival → System → System
enter (r, replied x) s = record s { resolver = r; arrived = s.arrived + 1 }
enter (r, forwarded p) s = record {
  resolver = r;
  pending = s.pending ++ p ∷ [];
  arrived = s.arrived + 1;
}

module _ (deps : ResolverDeps) where
  -- The query between the others settles.
  abbrev pub depart : List Pending → Pending → List Pending → ℕ → Option (List ℕ) → System → System
  depart front p back now_ms result s = record s {
    resolver = (settle deps p now_ms result s.resolver).0;
    pending = front ++ back;
  }

  -- The rules may have changed from one packet to the next.
  pub data Reachable : System → Type 0 where
    initial : (capacity : ℕ) → Reachable (start capacity)
    arrives :
        (s : System) (book : RuleBook) (packet : List ℕ) (client : ClientInfo)
        (started_ms now_ms : ℕ)
        → Reachable s
        → Reachable (enter (arrive deps book packet client started_ms now_ms s.resolver) s)
    settles :
        (s : System) (front : List Pending) (p : Pending) (back : List Pending) (now_ms : ℕ)
        (result : Option (List ℕ))
        → Reachable s
        → s.pending ≡ front ++ p ∷ back
        → Reachable (depart front p back now_ms result s)

  pub record IsSound (s : System) : Type 0 where
    pub waiting : s.resolver.in_flight ≡ length s.pending
    bounded : s.resolver.in_flight ≤ deps.max_in_flight
    answerable : All IsAnswerable s.pending
    balanced : IsBalanced s.resolver
    counted : IsQuiet deps → total s.resolver + s.resolver.in_flight ≡ s.arrived

  enter-IsSound :
      (s : System) (a : Resolver × Arrival)
      → IsArrival deps s.resolver a
      → IsSound s
      → IsSound (enter a s)
  enter-IsSound s (r, replied x) i h = record {
    waiting = i.0.0 ∙ h.waiting;
    bounded = omega (arith, i.0.0, h.bounded);
    answerable = h.answerable;
    balanced = i.0.2 h.balanced;
    counted = λ q. omega (arith, i.0.0, i.0.1, h.counted q);
  }
  enter-IsSound s (r, forwarded p) i h = record {
    waiting = omega (arith, i.0, h.waiting, length-append s.pending (p ∷ []));
    bounded = omega (arith, i.0, i.1);
    answerable = All-append IsAnswerable s.pending (p ∷ []) h.answerable (i.4, tt);
    balanced = i.3 h.balanced;
    counted = λ q. omega (arith, i.0, i.2, h.counted q);
  }

  All-middle :
      (front : List Pending) (p : Pending) (back : List Pending)
      → All IsAnswerable (front ++ p ∷ back)
      → IsAnswerable p × All IsAnswerable (front ++ back)
  All-middle [] p back a = (a.0, a.1)
  All-middle (x ∷ front) p back a =
      let (one, rest) = All-middle front p back a.1 in (one, (a.0, rest))

  length-middle :
      (front : List Pending) (p : Pending) (back : List Pending)
      → length (front ++ p ∷ back) ≡ length (front ++ back) + 1
  length-middle front p back =
      omega (arith, length-append front (p ∷ back), length-append front back)

  pub settle_one :
      (s : System) (front : List Pending) (p : Pending) (back : List Pending)
      → IsSound s
      → s.pending ≡ front ++ p ∷ back
      → IsAnswerable p
        × All IsAnswerable (front ++ back)
        × (s.resolver.in_flight ≡ length (front ++ back) + 1)
  settle_one s front p back h e =
      let (one, rest) = All-middle front p back (subst (All IsAnswerable) e h.answerable) in
      (one, rest, h.waiting ∙ ap length e ∙ length-middle front p back)

  pub depart-IsSound :
      (s : System) (front : List Pending) (p : Pending) (back : List Pending) (now_ms : ℕ)
      (result : Option (List ℕ))
      → IsSound s
      → s.pending ≡ front ++ p ∷ back
      → IsSound (depart front p back now_ms result s)
  depart-IsSound s front p back now_ms result h e =
      let (one, rest, size) = settle_one s front p back h e in
      let settled = settle-IsSettled deps p one now_ms s.resolver result in
      record {
        waiting = omega (arith, settled.0, size);
        bounded = omega (arith, settled.0, h.bounded);
        answerable = rest;
        balanced = settled.2 h.balanced;
        counted = λ q. omega (arith, settled.0, settled.1 q, size, h.counted q);
      }

  pub Reachable-IsSound : (s : System) → Reachable s → IsSound s
  unfolding new
  Reachable-IsSound s (initial capacity) = record {
    waiting = refl;
    bounded = omega arith;
    answerable = tt;
    balanced = refl;
    counted = λ q. refl;
  }
  Reachable-IsSound s (arrives t book packet client started_ms now_ms r) =
      enter-IsSound t (arrive deps book packet client started_ms now_ms t.resolver)
        (arrive-IsArrival deps packet client started_ms now_ms t.resolver book)
        (Reachable-IsSound t r)
  Reachable-IsSound s (settles t front p back now_ms result r e) =
      depart-IsSound t front p back now_ms result (Reachable-IsSound t r) e

  -- However packets arrive and settle, the counter is the number of queries that wait for the server
  -- and at most the limit, and the log's total is the sum of its counters by kind.
  pub Reachable-in_flight :
      (s : System)
      → Reachable s
      → (s.resolver.in_flight ≡ length s.pending)
        × (s.resolver.in_flight ≤ deps.max_in_flight)
        × IsBalanced s.resolver
  Reachable-in_flight s r = let h = Reachable-IsSound s r in (h.waiting, h.bounded, h.balanced)

  -- If the callback never throws, every packet that has arrived is counted once or is in flight.
  pub Reachable-total :
      (s : System)
      → IsQuiet deps
      → Reachable s
      → total s.resolver + s.resolver.in_flight ≡ s.arrived
  Reachable-total s quiet r = (Reachable-IsSound s r).counted quiet
