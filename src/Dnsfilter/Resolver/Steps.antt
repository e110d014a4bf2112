-- ===== src/Dnsfilter/Resolver/Steps.antt =====
-- src/dnsfilter/resolver.ts: what one step of the resolver does to its counter and to the log's.
use excubitor.Prelude.{
  ℕ, ◌+◌, ◌<◌, ◌≡◌, refl, sym, ap, subst, ◌∙◌, List, Option, none, some, ltb, leb, ◌==◌, length,
  arith, Bool-cases, inl, inr, Option-cases,
}
use excubitor.Prelude.Texts.{Text}
use excubitor.Dnsfilter.Message.{
  DnsQuery, QueryParse, query_of, malformed, parse_query, build_response, nxdomain, notimp,
  servfail,
}
use excubitor.Dnsfilter.Message.Reads.{parse_query-ne-none}
use excubitor.Dnsfilter.Upstream.Response.{parse_upstream_response-build_response}
use excubitor.Dnsfilter.DomainRules.{Decision, allow, block, RuleBook, decide}
use excubitor.Dnsfilter.QueryLog.{
  QueryAction, allowed, blocked, failed, refused, RecordSource, Detail, QueryCounters, QueryRecord,
  QueryLog, count_action, Uncounted, of_refused, of_malformed,
}
use excubitor.Dnsfilter.QueryLog.{add as add_record, count as count_event}
use excubitor.Dnsfilter.Resolver.{
  ResolverDeps, Resolver, ClientInfo, Reply, no_reply, reply, thrown, Pending, Arrival, replied,
  forwarded, reply_or_throw, log_query, arrive_decided, arrive_parsed, arrive_read, arrive,
}

abbrev pub total : Resolver → ℕ
total r = r.log.counters.total

abbrev pub Balanced : QueryCounters → Type 0
Balanced c =
    c.total
    ≡ c.allowed_count + c.blocked_count + c.failed_count + c.refused_count + c.malformed_count

-- The total is the sum of the counters by kind.
abbrev pub IsBalanced : Resolver → Type 0
IsBalanced r = Balanced r.log.counters

-- One more is counted, and the counter of queries in flight is the same.
abbrev pub CountsOne : Resolver → Resolver → Type 0
CountsOne r next =
    (next.in_flight ≡ r.in_flight) × (total next ≡ total r + 1) × (IsBalanced r → IsBalanced next)

count_action-Balanced :
    (action : QueryAction) (c : QueryCounters)
    → ((count_action action c).total ≡ c.total + 1)
      × (Balanced c → Balanced (count_action action c))
unfolding count_action
count_action-Balanced allowed c = (refl, λ b. omega arith)
count_action-Balanced blocked c = (refl, λ b. omega arith)
count_action-Balanced failed c = (refl, λ b. omega arith)
count_action-Balanced refused c = (refl, λ b. omega arith)

add_record-counters :
    (x : QueryRecord) (log : QueryLog)
    → (add_record x log).counters ≡ count_action x.action log.counters
unfolding add_record
add_record-counters x log = elim (Bool-cases (ltb (length log.records) log.capacity)) [
  | inl room ↦ rw room refl
  | inr full ↦ rw full refl
]

pub log_query-CountsOne :
    (query : DnsQuery) (client : ClientInfo) (started_ms now_ms : ℕ) (action : QueryAction)
    (rcode : Option ℕ) (rule : Option Text) (source : Option RecordSource) (detail : Option Detail)
    (r : Resolver)
    → CountsOne r (log_query query client started_ms now_ms action rcode rule source detail r)
unfolding log_query
log_query-CountsOne query client started_ms now_ms action rcode rule source detail r =
    let same = add_record-counters _ r.log in
    let counted = count_action-Balanced action r.log.counters in
    (refl, ap (λ c. c.total) same ∙ counted.0, λ b. subst Balanced (sym same) (counted.1 b))

count_event-CountsOne :
    (kind : Uncounted) (r : Resolver) → CountsOne r (record r { log = count_event kind r.log })
unfolding count_event
count_event-CountsOne of_refused r = (refl, refl, λ b. omega arith)
count_event-CountsOne of_malformed r = (refl, refl, λ b. omega arith)

-- The packet is a query that can be read.
abbrev pub IsAnswerable : Pending → Type 0
IsAnswerable p = parse_query p.packet ≡ some (query_of p.query)

-- Not a throw.
abbrev pub IsReturned : Reply → Type 0
IsReturned thrown = ⊥
IsReturned no_reply = Unit {0}
IsReturned (reply response) = Unit {0}

abbrev pub IsReply : Reply → Type 0
IsReply thrown = ⊥
IsReply no_reply = ⊥
IsReply (reply response) = Unit {0}

pub reply_or_throw-IsReply :
    (packet : List ℕ) (query : DnsQuery) (rcode : ℕ)
    → parse_query packet ≡ some (query_of query)
    → rcode < 16
    → IsReply (reply_or_throw (build_response packet query rcode))
unfolding reply_or_throw
reply_or_throw-IsReply packet query rcode h small =
    let (response, built, read) =
      parse_upstream_response-build_response packet query rcode h small in
    rw built tt

IsReply→IsReturned : (x : Reply) → IsReply x → IsReturned x
IsReply→IsReturned thrown i = i
IsReply→IsReturned no_reply i = tt
IsReply→IsReturned (reply response) i = tt

-- A packet that arrives is counted and replied to, or waits as one more in flight.
abbrev pub IsArrival : ResolverDeps → Resolver → Resolver × Arrival → Type 0
IsArrival deps r (next, replied x) = CountsOne r next × IsReturned x
IsArrival deps r (next, forwarded p) =
    (next.in_flight ≡ r.in_flight + 1)
    × (r.in_flight < deps.max_in_flight)
    × (total next ≡ total r)
    × (IsBalanced r → IsBalanced next)
    × IsAnswerable p

module _ (deps : ResolverDeps) (packet : List ℕ) (client : ClientInfo) (started_ms now_ms : ℕ)
    (r : Resolver) where
  built_IsReturned :
      (query : DnsQuery) (rcode : ℕ)
      → parse_query packet ≡ some (query_of query)
      → rcode < 16
      → IsReturned (reply_or_throw (build_response packet query rcode))
  built_IsReturned query rcode h small =
      IsReply→IsReturned _ (reply_or_throw-IsReply packet query rcode h small)

  arrive_decided-IsArrival :
      (query : DnsQuery) (d : Decision)
      → parse_query packet ≡ some (query_of query)
      → IsArrival deps r (arrive_decided deps packet client started_ms now_ms query d r)
  unfolding arrive_decided
  arrive_decided-IsArrival query (block rule source) h = (
    log_query-CountsOne query client started_ms now_ms _ _ _ _ _ r,
    built_IsReturned query nxdomain h (omega arith),
  )
  arrive_decided-IsArrival query (allow rule) h =
      elim (Bool-cases (leb deps.max_in_flight r.in_flight)) [
        | inl over ↦ rw over (
          log_query-CountsOne query client started_ms now_ms _ _ _ _ _ r,
          built_IsReturned query servfail h (omega arith),
        )
        | inr room ↦
            let below : r.in_flight < deps.max_in_flight = ground (arith, room) in
            rw room (refl, below, refl, λ b. b, h)
      ]

  arrive_parsed-IsArrival :
      (book : RuleBook) (parsed : QueryParse)
      → parse_query packet ≡ some parsed
      → IsArrival deps r (arrive_parsed deps book packet client started_ms now_ms parsed r)
  unfolding arrive_parsed
  arrive_parsed-IsArrival book (malformed none) h = (count_event-CountsOne of_malformed r, tt)
  arrive_parsed-IsArrival book (malformed (some id)) h = (count_event-CountsOne of_malformed r, tt)
  arrive_parsed-IsArrival book (query_of query) h = elim (Bool-cases (query.opcode == 0)) [
    | inl standard ↦ rw standard (arrive_decided-IsArrival query (decide query.name book) h)
    | inr other ↦ rw other (
      log_query-CountsOne query client started_ms now_ms _ _ _ _ _ r,
      built_IsReturned query notimp h (omega arith),
    )
  ]

  pub arrive-IsArrival :
      (book : RuleBook) → IsArrival deps r (arrive deps book packet client started_ms now_ms r)
  unfolding arrive arrive_read
  arrive-IsArrival book = elim (Bool-cases (deps.allows client.address)) [
    | inl inside ↦ elim (Option-cases (parse_query packet)) [
      | inl throws ↦ absurd (parse_query-ne-none packet throws)
      | inr (parsed, read) ↦ rw (inside, read) (arrive_parsed-IsArrival book parsed read)
    ]
    | inr outside ↦ rw outside (count_event-CountsOne of_refused r, tt)
  ]
