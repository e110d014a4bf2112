-- ===== src/Dnsfilter/ResolverTests.antt =====
-- A host a.b under the refused domain b, and the theorems at inputs that meet their hypotheses.
use excubitor.Prelude.{
  ℕ, ◌≡◌, ◌≤◌, refl, List, [], ◌∷◌, Option, none, some, true, false, inl, inr, length,
}
use excubitor.Prelude.Texts.{Text}
use excubitor.Dnsfilter.Name.{read_name}
use excubitor.Dnsfilter.Message.{nxdomain}
use excubitor.Dnsfilter.Upstream.{parse_upstream_response, answer_of}
use excubitor.Dnsfilter.DomainRules.{
  normalize_domain, domain_of, unreadable_domain, decide, block, api, config, RuleBook,
}
use excubitor.Dnsfilter.DomainRules.Decide.{IsDecision, IsClear, AllClear, decide-IsDecision}
use excubitor.Dnsfilter.QueryLog.{udp}
use excubitor.Dnsfilter.Resolver.{
  ResolverDeps, Resolver, ClientInfo, Reply, Pending, reply, replied, arrive,
}
use excubitor.Dnsfilter.Resolver.Blocked.{arrive-refused}
use excubitor.Dnsfilter.Resolver.Steps.{IsBalanced}
use excubitor.Dnsfilter.Resolver.InFlight.{
  System, start, enter, Reachable, initial, arrives, Reachable-in_flight,
}
use excubitor.Dnsfilter.Resolver.InFlight.Drain.{drain}
use excubitor.Dnsfilter.MessageTests.{request, query, parse_run}

-- The names b, ab and a.b.
abbrev b_domain : Text
b_domain = 98 ∷ []

abbrev book : RuleBook
book = record { allowed = (97 ∷ 98 ∷ []) ∷ []; blocked = (api, []) ∷ (config, b_domain ∷ []) ∷ [] }

abbrev refusing : RuleBook
refusing = record { allowed = []; blocked = book.blocked }

-- A space, `*.b.`.
normalize_run : normalize_domain (λ t. t) (32 ∷ 42 ∷ 46 ∷ 98 ∷ 46 ∷ []) ≡ domain_of b_domain
unfolding normalize_domain
normalize_run = refl

hyphen_run : normalize_domain (λ t. t) (45 ∷ 98 ∷ []) ≡ unreadable_domain
unfolding normalize_domain
hyphen_run = refl

decide_run : decide query.name book ≡ block b_domain config
unfolding decide
decide_run = refl

decide-IsDecision_example : IsDecision query.name book (decide query.name book)
decide-IsDecision_example = decide-IsDecision query.name book

abbrev deps : ResolverDeps
deps = record { allows = λ address. true; max_in_flight = 1; answer_throws = λ answer. false }

abbrev client : ClientInfo
client = record { address = 58 ∷ 58 ∷ 49 ∷ []; transport = udp }

abbrev before : Resolver
before = (start 5).resolver

not_allowed : IsClear refusing.allowed query.name
not_allowed rule i covers = elim i [ ]

b_refused : AllClear query.name refusing.blocked → ⊥
b_refused clear = clear.1.0 b_domain (inl refl) (inr (97 ∷ [], refl))

arrive-refused_example :
    (response : List ℕ) × ((arrive deps refusing request client 0 0 before).1
      ≡ replied (reply response))
    × ((arrive deps refusing request client 0 0 before).0.in_flight ≡ before.in_flight)
    × (parse_upstream_response response query
        ≡ some (answer_of (record { rcode = nxdomain; addresses = [] })))
arrive-refused_example =
    arrive-refused deps refusing request client 0 0 query before refl parse_run refl not_allowed
      b_refused

-- A packet that is forwarded, without rules.
abbrev open_book : RuleBook
open_book = record { allowed = []; blocked = [] }

abbrev waiting : System
waiting = enter (arrive deps open_book request client 0 0 before) (start 5)

waiting-Reachable : Reachable deps waiting
waiting-Reachable = arrives (start 5) open_book request client 0 0 (initial 5)

waiting_run : length waiting.pending ≡ 1
unfolding arrive read_name
waiting_run = refl

Reachable-in_flight_example :
    (waiting.resolver.in_flight ≡ length waiting.pending)
    × (waiting.resolver.in_flight ≤ deps.max_in_flight)
    × IsBalanced waiting.resolver
Reachable-in_flight_example = Reachable-in_flight deps waiting waiting-Reachable

-- The server does not answer.
abbrev no_result : ℕ → Pending → ℕ × Option (List ℕ)
no_result n p = (5000, none)

abbrev drained : List Reply × System
drained = drain deps no_result (λ n. n) waiting.resolver.in_flight waiting
