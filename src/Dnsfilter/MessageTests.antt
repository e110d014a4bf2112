-- ===== src/Dnsfilter/MessageTests.antt =====
-- Messages of a few bytes, and the theorems at inputs that meet their hypotheses.
use excubitor.Prelude.{ℕ, ◌≡◌, ◌≢◌, refl, arith, List, [], ◌∷◌, none, some, true, false}
use excubitor.Dnsfilter.Name.{misread, name_round, read_name, name_loop}
use excubitor.Dnsfilter.Name.Fuel.{read_name-fuel}
use excubitor.Dnsfilter.Message.{DnsQuery, query_of, parse_query, build_response, nxdomain}
use excubitor.Dnsfilter.Upstream.{parse_upstream_response, answer_of, format_ipv6}
use excubitor.Dnsfilter.Upstream.Reads.{parse-ne-none}
use excubitor.Dnsfilter.Upstream.Response.{parse_upstream_response-build_response}

-- The question of the host a.b, with type A and class IN.
abbrev pub request : List ℕ
request =
    171 ∷ 205 ∷ 1 ∷ 0 ∷ 0 ∷ 1 ∷ 0 ∷ 0 ∷ 0 ∷ 0 ∷ 0 ∷ 0 ∷ 1 ∷ 65 ∷ 1 ∷ 98 ∷ 0 ∷ 0 ∷ 1 ∷ 0 ∷ 1 ∷ []

abbrev pub query : DnsQuery
query = record {
  id = 43981;
  opcode = 0;
  name = 97 ∷ 46 ∷ 98 ∷ [];
  type = 1;
  qclass = 1;
  question_end = 21;
}

pub parse_run : parse_query request ≡ some (query_of query)
unfolding parse_query read_name
parse_run = refl

ipv6_run :
    format_ipv6 (8193 ∷ 3512 ∷ 0 ∷ 0 ∷ 0 ∷ 0 ∷ 0 ∷ 1 ∷ [])
    ≡ 50 ∷ 48 ∷ 48 ∷ 49 ∷ 58 ∷ 100 ∷ 98 ∷ 56 ∷ 58 ∷ 58 ∷ 49 ∷ []
unfolding format_ipv6
ipv6_run = refl

parse-ne-none_example :
    (parse_query request ≢ none)
    × (parse_upstream_response request query ≢ none)
    × (name_round request true
          (record { labels = []; offset = 20; end_at = none; bytes = 0; hops = 0 })
        ≢ misread)
parse-ne-none_example = parse-ne-none request query true _

parse_upstream_response-build_response_example :
    (response : List ℕ) × (build_response request query nxdomain ≡ some response)
    × (parse_upstream_response response query
        ≡ some (answer_of (record { rcode = nxdomain; addresses = [] })))
parse_upstream_response-build_response_example =
    parse_upstream_response-build_response request query nxdomain parse_run (omega arith)

read_name-fuel_example :
    name_loop 1000 request false
      (record { labels = []; offset = 12; end_at = none; bytes = 0; hops = 0 })
    ≡ read_name request 12 false
read_name-fuel_example = read_name-fuel request 12 false 1000 (omega arith)
