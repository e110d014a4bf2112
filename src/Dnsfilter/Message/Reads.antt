-- ===== src/Dnsfilter/Message/Reads.antt =====
-- src/dnsfilter/dns-message.ts: the reads of `parseQuery`, and the bytes that `writeUInt16BE` leaves.
use excubitor.Prelude.{
  ℕ, ◌+◌, ◌*◌, ◌/◌, ◌%◌, ◌≤◌, ◌≡◌, ◌≢◌, List, Option, none, some, false, length, get_or, arith,
}
use excubitor.Dnsfilter.Name.{NameRead, read_name}
use excubitor.Dnsfilter.Message.{
  header_bytes, read_u16, read_query, parse_question, parse_counted, parse_header, parse_query,
}

-- The number at an offset.
abbrev pub word : List ℕ → ℕ → ℕ
word buffer i = get_or buffer i 0 * 256 + get_or buffer (i + 1) 0

pub read_u16_within :
    (buffer : List ℕ) (i : ℕ) → i + 2 ≤ length buffer → read_u16 buffer i ≡ some (word buffer i)
unfolding read_u16
read_u16_within buffer i h = ground arith

read_query-ne-none :
    (buffer : List ℕ) (id opcode : ℕ) (n : NameRead)
    → n.end_at + 4 ≤ length buffer
    → read_query buffer id opcode n ≢ none
unfolding read_query
read_query-ne-none buffer id opcode n h e = ground (
  arith,
  read_u16_within buffer n.end_at (omega arith),
  read_u16_within buffer (n.end_at + 2) (omega arith),
)

parse_question-ne-none :
    (buffer : List ℕ) (id opcode : ℕ) (o : Option NameRead)
    → parse_question buffer id opcode o ≢ none
unfolding parse_question
parse_question-ne-none buffer id opcode none e = cc
parse_question-ne-none buffer id opcode (some n) e =
    ground (arith, read_query-ne-none buffer id opcode n)

parse_header-ne-none : (buffer : List ℕ) → 12 ≤ length buffer → parse_header buffer ≢ none
unfolding parse_header parse_counted
parse_header-ne-none buffer h e = ground (
  arith,
  read_u16_within buffer 0 (omega arith),
  read_u16_within buffer 2 (omega arith),
  read_u16_within buffer 4 (omega arith),
  parse_question-ne-none buffer (word buffer 0) (word buffer 2 / 2048 % 16)
      (read_name buffer header_bytes false),
)

-- `parseQuery` does not throw on any buffer.
pub parse_query-ne-none : (buffer : List ℕ) → parse_query buffer ≢ none
unfolding parse_query
parse_query-ne-none buffer e = ground (arith, parse_header-ne-none buffer)
