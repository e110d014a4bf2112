-- ===== src/Dnsfilter/Message.antt =====
-- src/dnsfilter/dns-message.ts: the header, queries and the responses that the filter makes. A `Buffer`
-- is a list of bytes, and `readUInt16BE` outside of it throws. The bits of a number are written
-- by quotients and remainders, and a union of bits that are apart as a sum. A text is the list of
-- its code units; of a reason only that there is one is kept.
pub mod Reads
pub mod Written
pub mod Queries
use excubitor.Prelude.{
  ℕ, zero, suc, ◌+◌, ◌*◌, ◌/◌, ◌%◌, List, [], ◌∷◌, Option, none, some, Bool, true, false, ltb, ◌==◌,
  if◌then◌else◌, length, get_or, set, take, replicate,
}
use excubitor.Prelude.Throws.{◌>>=◌}
use excubitor.Prelude.Numerals.{show}
use excubitor.Dnsfilter.Name.{NameRead, read_name}

abbrev pub header_bytes : ℕ
header_bytes = 12

-- `RCODE`
abbrev pub noerror : ℕ
noerror = 0

abbrev pub formerr : ℕ
formerr = 1

abbrev pub servfail : ℕ
servfail = 2

abbrev pub nxdomain : ℕ
nxdomain = 3

abbrev pub notimp : ℕ
notimp = 4

abbrev pub refused : ℕ
refused = 5

pub record DnsQuery : Type 0 where
  pub id : ℕ
  pub opcode : ℕ
  pub name : List ℕ
  pub type : ℕ
  pub qclass : ℕ
  pub question_end : ℕ

pub data QueryParse : Type 0 where
  query_of : DnsQuery → QueryParse
  malformed : Option ℕ → QueryParse  -- the id, if the header can be read

-- `readUInt16BE`
unfoldable pub read_u16 : List ℕ → ℕ → Option ℕ
read_u16 buffer i =
    if ltb (i + 1) (length buffer)
    then some (get_or buffer i 0 * 256 + get_or buffer (i + 1) 0)
    else none

-- `parseQuery` with a name whose type and class are in the buffer.
unfoldable pub read_query : List ℕ → ℕ → ℕ → NameRead → Option QueryParse
unfolding read_u16
read_query buffer id opcode n = do
  type ← read_u16 buffer n.end_at
  qclass ← read_u16 buffer (n.end_at + 2)
  some (
      query_of (record {
        id = id;
        opcode = opcode;
        name = n.name;
        type = type;
        qclass = qclass;
        question_end = n.end_at + 4;
      }))

-- `parseQuery` from the name of the question on.
unfoldable pub parse_question : List ℕ → ℕ → ℕ → Option NameRead → Option QueryParse
unfolding read_query
parse_question buffer id opcode none = some (malformed (some id))
parse_question buffer id opcode (some n) =
    if ltb (length buffer) (n.end_at + 4)
    then some (malformed (some id))
    else read_query buffer id opcode n

-- `parseQuery` after the flags.
unfoldable pub parse_counted : List ℕ → ℕ → ℕ → Option QueryParse
unfolding read_u16 parse_question
parse_counted buffer id flags = do
  count ← read_u16 buffer 4
  if count == 1
      then parse_question buffer id (flags / 2048 % 16) (read_name buffer header_bytes false)
      else some (malformed (some id))

-- `parseQuery` of a buffer with a header.
unfoldable pub parse_header : List ℕ → Option QueryParse
unfolding read_u16 parse_counted
parse_header buffer = do
  id ← read_u16 buffer 0
  flags ← read_u16 buffer 2
  if flags / 32768 % 2 == 1 then some (malformed none) else parse_counted buffer id flags

unfoldable pub parse_query : List ℕ → Option QueryParse
unfolding parse_header
parse_query buffer =
    if ltb (length buffer) header_bytes then some (malformed none) else parse_header buffer

-- `writeUInt16BE` within the buffer.
unfoldable pub write_u16 : List ℕ → ℕ → ℕ → List ℕ
write_u16 buffer i v = set (set buffer i (v / 256)) (i + 1) (v % 256)

-- QR, the opcode and RD of the request, RA and the RCODE.
unfoldable pub response_flags : ℕ → ℕ → ℕ
response_flags request_flags rcode =
    32768 + request_flags / 2048 % 16 * 2048 + request_flags / 256 % 2 * 256 + 128 + rcode

unfoldable pub build_response : List ℕ → DnsQuery → ℕ → Option (List ℕ)
unfolding read_u16 write_u16 response_flags
build_response request query rcode = do
  request_flags ← read_u16 request 2
  let response = take query.question_end request
  let flagged = write_u16 response 2 (response_flags request_flags rcode)
  some (write_u16 (write_u16 (write_u16 (write_u16 flagged 4 1) 6 0) 8 0) 10 0)

unfoldable pub build_header_only_response : ℕ → ℕ → List ℕ
unfolding write_u16
build_header_only_response id rcode =
    write_u16 (write_u16 (replicate header_bytes 0) 0 id) 2 (32768 + 128 + rcode)

-- `typeName`, with the digits of a 16-bit number.
unfoldable pub type_name : ℕ → List ℕ
unfolding show
type_name type =
    if type == 1
    then 65 ∷ []
    else if type == 2
    then 78 ∷ 83 ∷ []
    else if type == 5
    then 67 ∷ 78 ∷ 65 ∷ 77 ∷ 69 ∷ []
    else if type == 6
    then 83 ∷ 79 ∷ 65 ∷ []
    else if type == 12
    then 80 ∷ 84 ∷ 82 ∷ []
    else if type == 15
    then 77 ∷ 88 ∷ []
    else if type == 16
    then 84 ∷ 88 ∷ 84 ∷ []
    else if type == 28
    then 65 ∷ 65 ∷ 65 ∷ 65 ∷ []
    else if type == 33
    then 83 ∷ 82 ∷ 86 ∷ []
    else if type == 64
    then 83 ∷ 86 ∷ 67 ∷ 66 ∷ []
    else if type == 65
    then 72 ∷ 84 ∷ 84 ∷ 80 ∷ 83 ∷ []
    else if type == 255
    then 65 ∷ 78 ∷ 89 ∷ []
    else 84 ∷ 89 ∷ 80 ∷ 69 ∷ show 10 5 type
