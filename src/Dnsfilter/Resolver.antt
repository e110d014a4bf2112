-- ===== src/Dnsfilter/Resolver.antt =====
-- src/dnsfilter/resolver.ts: `DnsFilterResolver`. `handle` up to its `await` is `arrive`, and what is
-- after it, once the server answers or fails, is `settle`; in between other packets may arrive and
-- settle. The injected dependencies are arguments; `build_response` gives `none` where it throws.
pub mod Steps
mod Settles
pub mod InFlight
pub mod Blocked
use excubitor.Prelude.{
  ℕ, suc, ◌+◌, ◌-◌, List, [], ◌∷◌, ◌++◌, Option, none, some, Bool, true, false, not, ◌&&◌, ltb, leb,
  ◌==◌, if◌then◌else◌, length,
}
use excubitor.Prelude.Texts.{Text}
use excubitor.Prelude.Integers.{difference}
use excubitor.Dnsfilter.Message.{
  noerror, formerr, servfail, nxdomain, notimp, DnsQuery, QueryParse, query_of, malformed,
  parse_query, build_response, build_header_only_response, type_name,
}
use excubitor.Dnsfilter.Upstream.{
  UpstreamAnswer, AnswerParse, answer_of, rejected, parse_upstream_response,
}
use excubitor.Dnsfilter.DomainRules.{Decision, allow, block, RuleBook, decide}
use excubitor.Dnsfilter.QueryLog.{
  QueryAction, allowed, blocked, failed, Transport, RecordSource, allowlist, blocklist, Detail,
  other_opcode, too_many, bad_answer, error_of_upstream, QueryRecord, QueryLog, of_refused,
  of_malformed,
}
use excubitor.Dnsfilter.QueryLog.{add as add_record, count as count_event}

pub record ResolvedAnswer : Type 0 where
  pub name : Text
  pub addresses : List Text

pub record ClientInfo : Type 0 where
  pub address : Text
  pub transport : Transport

-- What the resolver is made with; the callback tells whether it throws.
pub record ResolverDeps : Type 0 where
  pub allows : Text → Bool
  pub max_in_flight : ℕ
  pub answer_throws : ResolvedAnswer → Bool

-- The counter, the log, and the answers that the callback got.
pub record Resolver : Type 0 where
  pub in_flight : ℕ
  pub log : QueryLog
  pub answers : List ResolvedAnswer

-- What `handle` ends with.
pub data Reply : Type 0 where
  no_reply : Reply
  reply : List ℕ → Reply
  thrown : Reply

-- A query that waits for the server.
pub record Pending : Type 0 where
  pub packet : List ℕ
  pub query : DnsQuery
  pub client : ClientInfo
  pub started_ms : ℕ
  pub rule : Option Text

pub data Arrival : Type 0 where
  replied : Reply → Arrival
  forwarded : Pending → Arrival

unfoldable pub reply_or_throw : Option (List ℕ) → Reply
reply_or_throw none = thrown
reply_or_throw (some response) = reply response

-- `record`, the closure of `handle`.
unfoldable pub log_query :
    DnsQuery
    → ClientInfo
    → ℕ
    → ℕ
    → QueryAction
    → Option ℕ
    → Option Text
    → Option RecordSource
    → Option Detail
    → Resolver
    → Resolver
unfolding type_name difference add_record
log_query query client started_ms now_ms action rcode rule source detail r = record r {
  log =
      add_record
        (record {
          at_ms = started_ms;
          client = client.address;
          transport = client.transport;
          name = query.name;
          type = type_name query.type;
          action = action;
          rule = rule;
          source = source;
          rcode = rcode;
          detail = detail;
          elapsed_ms = difference now_ms started_ms;
        })
        r.log;
}

-- A query with a decision, up to `forward`. The times are those of the start and of the record.
unfoldable pub arrive_decided :
    ResolverDeps → List ℕ → ClientInfo → ℕ → ℕ → DnsQuery → Decision → Resolver → Resolver × Arrival
unfolding log_query build_response reply_or_throw
arrive_decided deps packet client started_ms now_ms query (block rule source) r = (
  log_query query client started_ms now_ms blocked (some nxdomain) (some rule)
      (some (blocklist source)) none r,
  replied (reply_or_throw (build_response packet query nxdomain)),
)
arrive_decided deps packet client started_ms now_ms query (allow rule) r =
    if leb deps.max_in_flight r.in_flight
    then (
      log_query query client started_ms now_ms failed (some servfail) none none
          (some (too_many deps.max_in_flight)) r,
      replied (reply_or_throw (build_response packet query servfail)),
    )
    else (
      record r { in_flight = r.in_flight + 1 },
      forwarded (record {
        packet = packet;
        query = query;
        client = client;
        started_ms = started_ms;
        rule = rule;
      }),
    )

unfoldable pub arrive_parsed :
    ResolverDeps
    → RuleBook
    → List ℕ
    → ClientInfo
    → ℕ
    → ℕ
    → QueryParse
    → Resolver
    → Resolver × Arrival
unfolding log_query count_event build_response build_header_only_response reply_or_throw decide
    arrive_decided
arrive_parsed deps book packet client started_ms now_ms (malformed none) r =
    (record r { log = count_event of_malformed r.log }, replied no_reply)
arrive_parsed deps book packet client started_ms now_ms (malformed (some id)) r = (
  record r { log = count_event of_malformed r.log },
  replied (reply (build_header_only_response id formerr)),
)
arrive_parsed deps book packet client started_ms now_ms (query_of query) r =
    if not (query.opcode == 0)
    then (
      log_query query client started_ms now_ms failed (some notimp) none none
          (some (other_opcode query.opcode)) r,
      replied (reply_or_throw (build_response packet query notimp)),
    )
    else arrive_decided deps packet client started_ms now_ms query (decide query.name book) r

-- What the read of the packet gives, or its throw.
unfoldable pub arrive_read :
    ResolverDeps
    → RuleBook
    → List ℕ
    → ClientInfo
    → ℕ
    → ℕ
    → Option QueryParse
    → Resolver
    → Resolver × Arrival
unfolding arrive_parsed
arrive_read deps book packet client started_ms now_ms none r = (r, replied thrown)
arrive_read deps book packet client started_ms now_ms (some parsed) r =
    arrive_parsed deps book packet client started_ms now_ms parsed r

-- `handle` up to `await`.
unfoldable pub arrive :
    ResolverDeps → RuleBook → List ℕ → ClientInfo → ℕ → ℕ → Resolver → Resolver × Arrival
unfolding count_event parse_query arrive_read
arrive deps book packet client started_ms now_ms r =
    if not (deps.allows client.address)
    then (record r { log = count_event of_refused r.log }, replied no_reply)
    else arrive_read deps book packet client started_ms now_ms (parse_query packet) r

-- The branch `catch`.
unfoldable pub caught : Pending → ℕ → Resolver → Resolver × Reply
unfolding log_query build_response reply_or_throw
caught p now_ms r = (
  log_query p.query p.client p.started_ms now_ms failed (some servfail) none none
      (some error_of_upstream) r,
  reply_or_throw (build_response p.packet p.query servfail),
)

-- The answer is not one to the query; if its response cannot be made either, the error is caught.
unfoldable pub answer_rejected : Pending → ℕ → Option (List ℕ) → Resolver → Resolver × Reply
unfolding log_query caught
answer_rejected p now_ms made r =
    let logged =
      log_query p.query p.client p.started_ms now_ms failed (some servfail) none none
        (some bad_answer) r in
    elim made [ none ↦ caught p now_ms logged | some response ↦ (logged, reply response) ]

-- `decision.source` where the decision is to allow.
unfoldable pub allow_source : Option Text → Option RecordSource
allow_source none = none
allow_source (some rule) = some allowlist

-- The answer is passed on, and its addresses to the callback.
unfoldable pub answer_allowed :
    ResolverDeps → Pending → ℕ → List ℕ → UpstreamAnswer → Resolver → Resolver × Reply
unfolding log_query allow_source caught
answer_allowed deps p now_ms response answer r =
    let logged =
      log_query p.query p.client p.started_ms now_ms allowed (some answer.rcode) p.rule
        (allow_source p.rule) none r in
    let resolved : ResolvedAnswer = record { name = p.query.name; addresses = answer.addresses } in
    let told = record logged { answers = logged.answers ++ resolved ∷ [] } in
    if answer.rcode == noerror && ltb 0 (length answer.addresses)
    then if deps.answer_throws resolved then caught p now_ms told else (told, reply response)
    else (logged, reply response)

unfoldable pub settle_read :
    ResolverDeps → Pending → ℕ → List ℕ → Option AnswerParse → Resolver → Resolver × Reply
unfolding build_response caught answer_rejected answer_allowed
settle_read deps p now_ms response none r = caught p now_ms r
settle_read deps p now_ms response (some rejected) r =
    answer_rejected p now_ms (build_response p.packet p.query servfail) r
settle_read deps p now_ms response (some (answer_of answer)) r =
    answer_allowed deps p now_ms response answer r

-- The body of `try` and `catch` from `await` on: the server's response, or an error.
unfoldable pub settle_body :
    ResolverDeps → Pending → ℕ → Option (List ℕ) → Resolver → Resolver × Reply
unfolding caught parse_upstream_response settle_read
settle_body deps p now_ms none r = caught p now_ms r
settle_body deps p now_ms (some response) r =
    settle_read deps p now_ms response (parse_upstream_response response p.query) r

-- And `finally`.
unfoldable pub settle : ResolverDeps → Pending → ℕ → Option (List ℕ) → Resolver → Resolver × Reply
unfolding settle_body
settle deps p now_ms result r =
    let (left, answer) = settle_body deps p now_ms result r in
    (record left { in_flight = left.in_flight - 1 }, answer)
