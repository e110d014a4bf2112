-- ===== src/Dnsfilter/Name.antt =====
-- src/dnsfilter/dns-message.ts: `readName`. A `Buffer` is a list of bytes, and a text the list of its
-- code units. The bits of a byte are written by quotients and remainders.
pub mod Bytes
pub mod Fuel
pub mod Prefix
use excubitor.Prelude.{
  ℕ, zero, suc, ◌+◌, ◌*◌, ◌/◌, ◌%◌, List, [], ◌∷◌, ◌++◌, map, Option, none, some, Bool, true, false,
  not, ◌&&◌, ◌||◌, ltb, leb, ◌==◌, if◌then◌else◌, length, get_elem?, take, drop,
}

abbrev pub max_name_bytes : ℕ
max_name_bytes = 255

abbrev pub max_pointer_hops : ℕ
max_pointer_hops = 32

-- `toLowerCase` on a text of Latin-1: A-Z and the accented capitals but the sign of multiplication.
unfoldable pub lower_latin1 : ℕ → ℕ
lower_latin1 c =
    if (leb 65 c && leb c 90) || (leb 192 c && leb c 222 && not (c == 215)) then c + 32 else c

-- `labels.join('.')`
unfoldable pub join : List (List ℕ) → List ℕ
join [] = []
join (label ∷ []) = label
join (label ∷ next ∷ labels) = label ++ b'.' ∷ join (next ∷ labels)

pub record NameRead : Type 0 where
  pub name : List ℕ
  pub end_at : ℕ

-- The variables of the loop of `readName`.
pub record NameLoop : Type 0 where
  pub labels : List (List ℕ)
  pub offset : ℕ
  pub end_at : Option ℕ
  pub bytes : ℕ
  pub hops : ℕ

abbrev pub or_else : Option ℕ → ℕ → ℕ
or_else none n = n
or_else (some m) n = m

-- One round: the end, `return null`, or the next round. A read of bytes that are not in the buffer is
-- `misread`; no value is made up for such bytes.
pub data NameRound : Type 0 where
  named : NameRead → NameRound
  refused_name misread : NameRound
  again : NameLoop → NameRound

-- `buffer.toString('latin1', from, from + size)`, of bytes that are all in the buffer.
unfoldable pub read_bytes : List ℕ → ℕ → ℕ → Option (List ℕ)
read_bytes buffer from size =
    if leb (from + size) (length buffer) then some (take size (drop from buffer)) else none

-- The label that was read joins the others.
unfoldable pub add_label : Option (List ℕ) → ℕ → NameLoop → NameRound
add_label none size s = misread
add_label (some label) size s = again (record s {
  bytes = s.bytes + (size + 1);
  labels = s.labels ++ label ∷ [];
  offset = s.offset + 1 + size;
})

unfoldable pub name_label : List ℕ → ℕ → NameLoop → NameRound
unfolding read_bytes add_label
name_label buffer size s =
    if ltb (length buffer) (s.offset + 1 + size)
    then refused_name
    else if ltb max_name_bytes (s.bytes + (size + 1))
    then refused_name
    else add_label (read_bytes buffer (s.offset + 1) size) size s

-- The second byte of the pointer was read.
unfoldable pub follow : Option ℕ → ℕ → NameLoop → NameRound
follow none size s = misread
follow (some low) size s = again (record s {
  end_at = some (or_else s.end_at (s.offset + 2));
  offset = size % 64 * 256 + low;
  hops = s.hops + 1;
})

unfoldable pub name_pointer : List ℕ → Bool → ℕ → NameLoop → NameRound
unfolding follow
name_pointer buffer allow_pointers size s =
    if not allow_pointers || leb (length buffer) (s.offset + 1)
    then refused_name
    else follow (get_elem? buffer (s.offset + 1)) size s

-- A round, from the byte at the offset on.
unfoldable pub name_sized : List ℕ → Bool → NameLoop → Option ℕ → NameRound
unfolding name_label name_pointer join lower_latin1
name_sized buffer allow_pointers s none = misread
name_sized buffer allow_pointers s (some size) =
    let name = map lower_latin1 (join s.labels) in
    if size == 0
    then named (record { name = name; end_at = or_else s.end_at (s.offset + 1) })
    else if size / 64 % 4 == 3
    then name_pointer buffer allow_pointers size s
    else if not (size / 64 % 4 == 0)
    then refused_name
    else name_label buffer size s

unfoldable pub name_round : List ℕ → Bool → NameLoop → NameRound
unfolding name_sized
name_round buffer allow_pointers s =
    if leb (length buffer) s.offset
    then refused_name
    else name_sized buffer allow_pointers s (get_elem? buffer s.offset)

-- What a round leads to, with the rest of the loop.
abbrev pub name_after : (NameLoop → Option NameRead) → NameRound → Option NameRead
name_after rest (named n) = some n
name_after rest refused_name = none
name_after rest misread = none
name_after rest (again next) = rest next

-- The loop, with fuel.
unfoldable pub name_loop : ℕ → List ℕ → Bool → NameLoop → Option NameRead
unfolding name_round
name_loop zero buffer allow_pointers s = none
name_loop (suc fuel) buffer allow_pointers s =
    if ltb max_pointer_hops s.hops
    then none
    else name_after (name_loop fuel buffer allow_pointers) (name_round buffer allow_pointers s)

-- A round raises either the hops, of which there are at most 33, or the bytes, at most 255.
abbrev pub name_fuel : ℕ
name_fuel = 290

unfoldable pub read_name : List ℕ → ℕ → Bool → Option NameRead
unfolding name_loop
read_name buffer start allow_pointers =
    name_loop name_fuel buffer allow_pointers
      (record { labels = []; offset = start; end_at = none; bytes = 0; hops = 0 })
