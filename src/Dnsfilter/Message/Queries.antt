-- ===== src/Dnsfilter/Message/Queries.antt =====
-- src/dnsfilter/dns-message.ts: what `parseQuery` reads in a packet.
use excubitor.Prelude.{
  ℕ, ◌+◌, ◌/◌, ◌%◌, ◌≤◌, ◌≡◌, refl, sym, ap, ◌∙◌, List, Option, none, some, false, ltb, length,
  arith, inl, inr, Bool-cases,
}
use excubitor.Dnsfilter.Name.{NameRead, read_name}
use excubitor.Dnsfilter.Message.{
  DnsQuery, query_of, read_query, parse_question, parse_counted, parse_header, parse_query,
}
use excubitor.Dnsfilter.Message.Reads.{word, read_u16_within}

-- What a query that is read says of its buffer.
pub record IsQuery (request : List ℕ) (q : DnsQuery) (end : ℕ) : Type 0 where
  pub long : 12 ≤ length request
  pub id_read : word request 0 ≡ q.id
  pub fits : end + 4 ≤ length request
  pub name_read : read_name request 12 false ≡ some (record { name = q.name; end_at = end })
  pub type_read : word request end ≡ q.type
  pub class_read : word request (end + 2) ≡ q.qclass
  pub end_read : q.question_end ≡ end + 4

query_of_injective : {a b : DnsQuery} → some (query_of a) ≡ some (query_of b) → a ≡ b
query_of_injective h = cc

parse_question-IsQuery :
    (request : List ℕ) (q : DnsQuery) (id opcode : ℕ) (o : Option NameRead)
    → 12 ≤ length request
    → word request 0 ≡ id
    → read_name request 12 false ≡ o
    → parse_question request id opcode o ≡ some (query_of q)
    → (end : ℕ) × IsQuery request q end
unfolding parse_question read_query
parse_question-IsQuery request q id opcode none l w r h = cc
parse_question-IsQuery request q id opcode (some n) l w r h =
    elim (Bool-cases (ltb (length request) (n.end_at + 4))) [
      | inl short ↦ absurd (ground (arith, short))
      | inr enough ↦
          let fits : n.end_at + 4 ≤ length request = ground (arith, enough) in
          let type = read_u16_within request n.end_at (omega arith) in
          let qclass = read_u16_within request (n.end_at + 2) (omega arith) in
          let read : parse_question request id opcode (some n)
              ≡ some (
                  query_of (record {
                    id = id;
                    opcode = opcode;
                    name = n.name;
                    type = word request n.end_at;
                    qclass = word request (n.end_at + 2);
                    question_end = n.end_at + 4;
                  })) =
            rw (enough, type, qclass) refl in
          let same = query_of_injective (sym read ∙ h) in
          (
            n.end_at,
            record {
              long = l;
              id_read = w ∙ ap (λ d. d.id) same;
              fits = fits;
              name_read =
                  r
                  ∙ ap (λ t. some (record { name = t; end_at = n.end_at })) (ap (λ d. d.name) same);
              type_read = ap (λ d. d.type) same;
              class_read = ap (λ d. d.qclass) same;
              end_read = sym (ap (λ d. d.question_end) same);
            },
          )
    ]

pub parse_query-IsQuery :
    (request : List ℕ) (q : DnsQuery)
    → parse_query request ≡ some (query_of q)
    → (end : ℕ) × IsQuery request q end
unfolding parse_query parse_header parse_counted
parse_query-IsQuery request q h = elim (Bool-cases (ltb (length request) 12)) [
  | inl short ↦ absurd (ground (arith, short))
  | inr enough ↦
      let long : 12 ≤ length request = ground (arith, enough) in
      let id = read_u16_within request 0 (omega arith) in
      let flags = read_u16_within request 2 (omega arith) in
      let count = read_u16_within request 4 (omega arith) in
      let w = word request 2 in
      let opcode = w / 2048 % 16 in
      let name = read_name request 12 false in
      let isq : parse_question request (word request 0) opcode name ≡ some (query_of q) =
        ground (arith, enough, id, flags, count, h) in
      parse_question-IsQuery request q (word request 0) opcode name long refl refl isq
]
