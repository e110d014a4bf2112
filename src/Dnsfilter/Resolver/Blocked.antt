-- ===== src/Dnsfilter/Resolver/Blocked.antt =====
-- src/dnsfilter/resolver.ts: a query for a refused name.
use excubitor.Prelude.{ℕ, ◌≡◌, refl, List, [], none, some, true, arith}
use excubitor.Prelude.Texts.{Text}
use excubitor.Dnsfilter.Message.{nxdomain, DnsQuery, query_of, parse_query, build_response}
use excubitor.Dnsfilter.Upstream.{answer_of, parse_upstream_response}
use excubitor.Dnsfilter.Upstream.Response.{parse_upstream_response-build_response}
use excubitor.Dnsfilter.DomainRules.{RuleSource, Decision, allow, block, RuleBook, decide}
use excubitor.Dnsfilter.DomainRules.Decide.{IsClear, AllClear, IsDecision, decide-IsDecision}
use excubitor.Dnsfilter.Resolver.{
  ResolverDeps, Resolver, ClientInfo, reply, replied, arrive_decided, arrive_parsed, arrive_read,
  arrive,
}

-- The decision on a name that no allowed domain covers and some refused domain does.
decide_refused :
    (name : Text) (book : RuleBook) (d : Decision)
    → IsDecision name book d
    → IsClear book.allowed name
    → (AllClear name book.blocked → ⊥)
    → (rule : Text) × (source : RuleSource) × (d ≡ block rule source)
decide_refused name book (allow none) i clear covered = absurd (covered i.1)
decide_refused name book (allow (some rule)) i clear covered = absurd (clear rule i.0 i.1)
decide_refused name book (block rule source) i clear covered = (rule, source, refl)

arrive-block :
    (deps : ResolverDeps) (book : RuleBook) (packet : List ℕ) (client : ClientInfo)
    (started_ms now_ms : ℕ) (query : DnsQuery) (r : Resolver) (rule : Text) (source : RuleSource)
    (response : List ℕ)
    → deps.allows client.address ≡ true
    → parse_query packet ≡ some (query_of query)
    → query.opcode ≡ 0
    → decide query.name book ≡ block rule source
    → build_response packet query nxdomain ≡ some response
    → ((arrive deps book packet client started_ms now_ms r).1 ≡ replied (reply response))
      × ((arrive deps book packet client started_ms now_ms r).0.in_flight ≡ r.in_flight)
unfolding arrive arrive_read arrive_parsed arrive_decided
arrive-block deps book packet client started_ms now_ms query r rule source response ok parsed opcode
      decided built =
    (rw (ok, parsed, opcode, decided, built) refl, rw (ok, parsed, opcode, decided) refl)

-- A client within the ranges who asks with a standard query for a name that some refused domain
-- covers, and no allowed one, gets a response at once, the query is not forwarded, and the response
-- is read as the answer to the query that there is no such name, without addresses.
pub arrive-refused :
    (deps : ResolverDeps) (book : RuleBook) (packet : List ℕ) (client : ClientInfo)
    (started_ms now_ms : ℕ) (query : DnsQuery) (r : Resolver)
    → deps.allows client.address ≡ true
    → parse_query packet ≡ some (query_of query)
    → query.opcode ≡ 0
    → IsClear book.allowed query.name
    → (AllClear query.name book.blocked → ⊥)
    → (response : List ℕ) × ((arrive deps book packet client started_ms now_ms r).1
        ≡ replied (reply response))
      × ((arrive deps book packet client started_ms now_ms r).0.in_flight ≡ r.in_flight)
      × (parse_upstream_response response query
          ≡ some (answer_of (record { rcode = nxdomain; addresses = [] })))
arrive-refused deps book packet client started_ms now_ms query r client_ok parsed opcode clear
      covered =
    let (rule, source, decided) =
      decide_refused query.name book (decide query.name book) (decide-IsDecision query.name book)
        clear covered in
    let (response, built, read) =
      parse_upstream_response-build_response packet query nxdomain parsed (omega arith) in
    let (replies, kept) =
      arrive-block deps book packet client started_ms now_ms query r rule source response client_ok
        parsed opcode decided built in
    (response, replies, kept, read)
