-- ===== src/Dnsfilter/Upstream.antt =====
-- src/dnsfilter/dns-message.ts: `parseUpstreamResponse`, with the addresses as texts.
pub mod Reads
pub mod Response
use excubitor.Prelude.{
  ℕ, zero, suc, ◌+◌, ◌-◌, ◌*◌, ◌/◌, ◌%◌, List, [], ◌∷◌, ◌++◌, map, Option, none, some, Bool, true,
  false, not, ◌&&◌, ◌||◌, ltb, leb, ◌==◌, if◌then◌else◌, length, get_or, take, drop,
}
use excubitor.Prelude.Throws.{◌>>=◌}
use excubitor.Prelude.Numerals.{show}
use excubitor.Prelude.Texts.{same_text}
use excubitor.Dnsfilter.Name.{NameRead, read_name, join}
use excubitor.Dnsfilter.Message.{header_bytes, read_u16, DnsQuery}

pub record UpstreamAnswer : Type 0 where
  pub rcode : ℕ
  pub addresses : List (List ℕ)

pub data AnswerParse : Type 0 where
  answer_of : UpstreamAnswer → AnswerParse
  rejected : AnswerParse

unfoldable pub decimals : List ℕ → List (List ℕ)
decimals [] = []
decimals (b ∷ bytes) = show 10 3 b ∷ decimals bytes

-- `[...bytes].join('.')`
unfoldable pub format_ipv4 : List ℕ → List ℕ
unfolding decimals show join
format_ipv4 bytes = join (decimals bytes)

-- The groups from an index on, as numbers.
unfoldable pub groups_from : ℕ → List ℕ → ℕ → Option (List ℕ)
unfolding read_u16
groups_from zero buffer offset = some []
groups_from (suc rounds) buffer offset = do
  group ← read_u16 buffer offset
  rest ← groups_from rounds buffer (offset + 2)
  some (group ∷ rest)

-- How many groups at the front are 0.
unfoldable pub zero_run : List ℕ → ℕ
zero_run [] = 0
zero_run (g ∷ groups) = let rest = zero_run groups in if g == 0 then suc rest else 0

-- The first of the longest runs of two and more zeros: where it starts and how long it is. A run is
-- measured at its first group; from a later group of it no longer run comes.
unfoldable pub best_run : ℕ → List ℕ → ℕ × ℕ → ℕ × ℕ
unfolding zero_run
best_run index [] best = best
best_run index (g ∷ groups) best =
    let run = zero_run (g ∷ groups) in
    best_run (index + 1) groups (if ltb best.1 run && leb 2 run then (index, run) else best)

unfoldable pub hex_groups : List ℕ → List (List ℕ)
hex_groups [] = []
hex_groups (g ∷ groups) = show 16 4 g ∷ hex_groups groups

-- `join(':')`
unfoldable pub join_colon : List (List ℕ) → List ℕ
join_colon [] = []
join_colon (part ∷ []) = part
join_colon (part ∷ next ∷ parts) = part ++ b':' ∷ join_colon (next ∷ parts)

unfoldable pub format_ipv6 : List ℕ → List ℕ
unfolding best_run hex_groups show join_colon
format_ipv6 groups =
    let (start, run) = best_run 0 groups (0, 0) in
    let texts = hex_groups groups in
    if run == 0
    then join_colon texts
    else join_colon (take start texts) ++ b':' ∷ b':' ∷ join_colon (drop (start + run) texts)

-- The address of a record of the answer, if it is one.
unfoldable pub address_of : List ℕ → ℕ → ℕ → ℕ → Option (List (List ℕ))
unfolding format_ipv4 format_ipv6 groups_from
address_of buffer type size at =
    let v6 : Option (List (List ℕ)) = (do
      groups ← groups_from 8 buffer at
      some (format_ipv6 groups ∷ [])) in
    if type == 1 && size == 4
    then some (format_ipv4 (take 4 (drop at buffer)) ∷ [])
    else if type == 28 && size == 16
    then v6
    else some []

-- What a record of the answer gives: its addresses and the offset after it, or `ok: false`.
pub data RecordRead : Type 0 where
  bad_record : RecordRead
  record_of : List (List ℕ) → ℕ → RecordRead

unfoldable pub read_data : List ℕ → ℕ → ℕ → ℕ → Option RecordRead
unfolding address_of
read_data buffer type size at =
    let read : Option RecordRead = (do
      addresses ← address_of buffer type size at
      some (record_of addresses (at + size))) in
    if ltb (length buffer) (at + size) then some bad_record else read

unfoldable pub read_fields : List ℕ → NameRead → Option RecordRead
unfolding read_u16 read_data
read_fields buffer owner = do
  type ← read_u16 buffer owner.end_at
  size ← read_u16 buffer (owner.end_at + 8)
  read_data buffer type size (owner.end_at + 10)

unfoldable pub read_record : List ℕ → Option NameRead → Option RecordRead
unfolding read_fields
read_record buffer none = some bad_record
read_record buffer (some owner) =
    if ltb (length buffer) (owner.end_at + 10) then some bad_record else read_fields buffer owner

-- What a record leads to, with the rest of the loop.
abbrev pub record_after : (List (List ℕ) → ℕ → Option AnswerParse) → RecordRead → Option AnswerParse
record_after rest bad_record = some rejected
record_after rest (record_of more next) = rest more next

-- The loop over the answer, one round for each record.
unfoldable pub read_answers : ℕ → List ℕ → ℕ → ℕ → List (List ℕ) → Option AnswerParse
unfolding read_record
read_answers zero buffer rcode offset addresses =
    some (answer_of (record { rcode = rcode; addresses = addresses }))
read_answers (suc count) buffer rcode offset addresses = do
  step ← read_record buffer (read_name buffer offset true)
  record_after (λ more next. read_answers count buffer rcode next (addresses ++ more)) step

-- The comparison with the question of the query, and the answer.
unfoldable pub check_question : List ℕ → DnsQuery → ℕ → NameRead → Option AnswerParse
unfolding read_u16 same_text read_answers
check_question buffer query flags question = do
  type ← read_u16 buffer question.end_at
  qclass ← read_u16 buffer (question.end_at + 2)
  count ← read_u16 buffer 6
  if same_text question.name query.name && type == query.type && qclass == query.qclass
      then read_answers count buffer (flags % 16) (question.end_at + 4) []
      else some rejected

unfoldable pub parse_answer : List ℕ → DnsQuery → ℕ → Option NameRead → Option AnswerParse
unfolding check_question
parse_answer buffer query flags none = some rejected
parse_answer buffer query flags (some question) =
    if ltb (length buffer) (question.end_at + 4)
    then some rejected
    else check_question buffer query flags question

unfoldable pub parse_upstream_header : List ℕ → DnsQuery → Option AnswerParse
unfolding read_u16 parse_answer
parse_upstream_header buffer query = do
  id ← read_u16 buffer 0
  flags ← read_u16 buffer 2
  count ← read_u16 buffer 4
  if id == query.id && flags / 32768 % 2 == 1 && count == 1
      then parse_answer buffer query flags (read_name buffer header_bytes true)
      else some rejected

unfoldable pub parse_upstream_response : List ℕ → DnsQuery → Option AnswerParse
unfolding parse_upstream_header
parse_upstream_response buffer query =
    if ltb (length buffer) header_bytes then some rejected else parse_upstream_header buffer query
