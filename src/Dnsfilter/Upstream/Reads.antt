-- ===== src/Dnsfilter/Upstream/Reads.antt =====
-- src/dnsfilter/dns-message.ts: the reads of `parseUpstreamResponse`.
use excubitor.Prelude.{
  ℕ, zero, suc, ◌+◌, ◌*◌, ◌%◌, ◌≤◌, ◌≢◌, refl, List, [], ◌++◌, Option, none, some, Bool, true,
  length, arith,
}
use excubitor.Prelude.Throws.{◌>>=◌}
use excubitor.Dnsfilter.Name.{NameRead, NameLoop, misread, name_round, read_name}
use excubitor.Dnsfilter.Name.Bytes.{name_round-ne-misread}
use excubitor.Dnsfilter.Message.{header_bytes, DnsQuery, parse_query}
use excubitor.Dnsfilter.Message.Reads.{word, read_u16_within, parse_query-ne-none}
use excubitor.Dnsfilter.Upstream.{
  groups_from, address_of, RecordRead, bad_record, record_of, read_data, read_fields, read_record,
  record_after, read_answers, check_question, parse_answer, parse_upstream_header,
  parse_upstream_response,
}

groups_from-ne-none :
    (rounds : ℕ) (buffer : List ℕ) (offset : ℕ)
    → offset + 2 * rounds ≤ length buffer
    → groups_from rounds buffer offset ≢ none
unfolding groups_from
groups_from-ne-none zero buffer offset h e = cc
groups_from-ne-none (suc rounds) buffer offset h e = ground (
  arith,
  read_u16_within buffer offset (omega arith),
  groups_from-ne-none rounds buffer (offset + 2) (omega arith),
)

address_of-ne-none :
    (buffer : List ℕ) (type size at : ℕ)
    → at + size ≤ length buffer
    → address_of buffer type size at ≢ none
unfolding address_of
address_of-ne-none buffer type size at h e = ground (arith, groups_from-ne-none 8 buffer at)

read_data-ne-none : (buffer : List ℕ) (type size at : ℕ) → read_data buffer type size at ≢ none
unfolding read_data
read_data-ne-none buffer type size at e = ground (arith, address_of-ne-none buffer type size at)

read_record-ne-none : (buffer : List ℕ) (owner : Option NameRead) → read_record buffer owner ≢ none
unfolding read_record read_fields
read_record-ne-none buffer none e = cc
read_record-ne-none buffer (some n) e = ground (
  arith,
  read_u16_within buffer n.end_at,
  read_u16_within buffer (n.end_at + 8),
  read_data-ne-none buffer (word buffer n.end_at) (word buffer (n.end_at + 8)) (n.end_at + 10),
)

read_answers-ne-none :
    (count : ℕ) (buffer : List ℕ) (rcode offset : ℕ) (addresses : List (List ℕ))
    → read_answers count buffer rcode offset addresses ≢ none
unfolding read_answers
read_answers-ne-none zero buffer rcode offset addresses e = cc
read_answers-ne-none (suc count) buffer rcode offset addresses e =
    step (read_record buffer (read_name buffer offset true))
      (read_record-ne-none buffer (read_name buffer offset true))
      (λ more next. read_answers-ne-none count buffer rcode next (addresses ++ more)) e
  where
    step :
        (o : Option RecordRead)
        → o ≢ none
        → ((more : List (List ℕ)) (next : ℕ)
            → read_answers count buffer rcode next (addresses ++ more) ≢ none)
        → (o
            >>= record_after
                (λ more next. read_answers count buffer rcode next (addresses ++ more)))
          ≢ none
    step none h rest f = h refl
    step (some bad_record) h rest f = cc
    step (some (record_of more next)) h rest f = rest more next f

parse_answer-ne-none :
    (buffer : List ℕ) (query : DnsQuery) (flags : ℕ) (o : Option NameRead)
    → 12 ≤ length buffer
    → parse_answer buffer query flags o ≢ none
unfolding parse_answer check_question
parse_answer-ne-none buffer query flags none h e = cc
parse_answer-ne-none buffer query flags (some n) h e = ground (
  arith,
  read_u16_within buffer n.end_at,
  read_u16_within buffer (n.end_at + 2),
  read_u16_within buffer 6 (omega arith),
  read_answers-ne-none (word buffer 6) buffer (flags % 16) (n.end_at + 4) [],
)

parse_upstream_header-ne-none :
    (buffer : List ℕ) (query : DnsQuery)
    → 12 ≤ length buffer
    → parse_upstream_header buffer query ≢ none
unfolding parse_upstream_header
parse_upstream_header-ne-none buffer query h e = ground (
  arith,
  read_u16_within buffer 0 (omega arith),
  read_u16_within buffer 2 (omega arith),
  read_u16_within buffer 4 (omega arith),
  parse_answer-ne-none buffer query (word buffer 2) (read_name buffer header_bytes true) h,
)

parse_upstream_response-ne-none :
    (buffer : List ℕ) (query : DnsQuery) → parse_upstream_response buffer query ≢ none
unfolding parse_upstream_response
parse_upstream_response-ne-none buffer query e =
    ground (arith, parse_upstream_header-ne-none buffer query)

-- No buffer, be it a client's or the server's, makes the parsers throw by reading a number outside of
-- it, and no round of `readName`, wherever it stands, reads bytes outside of it.
pub parse-ne-none :
    (buffer : List ℕ) (query : DnsQuery) (allow_pointers : Bool) (s : NameLoop)
    → (parse_query buffer ≢ none)
      × (parse_upstream_response buffer query ≢ none)
      × (name_round buffer allow_pointers s ≢ misread)
parse-ne-none buffer query allow_pointers s = (
  parse_query-ne-none buffer,
  parse_upstream_response-ne-none buffer query,
  name_round-ne-misread buffer allow_pointers s,
)
