-- ===== src/Dnsfilter/Name/Bytes.antt =====
-- src/dnsfilter/dns-message.ts: the bytes that `readName` reads are in the buffer.
use excubitor.Prelude.{
  ℕ, zero, suc, ◌+◌, ◌*◌, ◌/◌, ◌%◌, ◌<◌, ◌≡◌, ◌≢◌, refl, List, [], ◌∷◌, ◌++◌, map, some, Bool, not,
  ◌||◌, ltb, leb, ◌==◌, if◌then◌else◌, length, get_elem?, get_or, take, drop, arith,
}
use excubitor.Dnsfilter.Name.{
  NameLoop, named, refused_name, misread, again, max_name_bytes, or_else, lower_latin1, join,
  read_bytes, add_label, name_label, follow, name_pointer, name_sized, name_round,
}

pub get_elem_within : (xs : List ℕ) (i : ℕ) → i < length xs → get_elem? xs i ≡ some (get_or xs i 0)
get_elem_within [] i h = absurd (omega arith)
get_elem_within (x ∷ xs) zero h = refl
get_elem_within (x ∷ xs) (suc i) h = get_elem_within xs i (omega arith)

-- The rounds with the bytes in place.
pub name_label_bytes :
    (buffer : List ℕ) (size : ℕ) (s : NameLoop)
    → name_label buffer size s ≡ (
        if ltb (length buffer) (s.offset + 1 + size)
        then refused_name
        else if ltb max_name_bytes (s.bytes + (size + 1))
        then refused_name
        else again (record s {
          bytes = s.bytes + (size + 1);
          labels = s.labels ++ take size (drop (s.offset + 1) buffer) ∷ [];
          offset = s.offset + 1 + size;
        }))
unfolding name_label read_bytes add_label
name_label_bytes buffer size s = ground arith

pub name_pointer_bytes :
    (buffer : List ℕ) (allow : Bool) (size : ℕ) (s : NameLoop)
    → name_pointer buffer allow size s ≡ (
        if not allow || leb (length buffer) (s.offset + 1)
        then refused_name
        else again (record s {
          end_at = some (or_else s.end_at (s.offset + 2));
          offset = size % 64 * 256 + get_or buffer (s.offset + 1) 0;
          hops = s.hops + 1;
        }))
unfolding name_pointer follow
name_pointer_bytes buffer allow size s = ground (arith, get_elem_within buffer (s.offset + 1))

pub name_round_bytes :
    (buffer : List ℕ) (allow : Bool) (s : NameLoop)
    → name_round buffer allow s ≡ (
        let size = get_or buffer s.offset 0 in
        let name = map lower_latin1 (join s.labels) in
        if leb (length buffer) s.offset
        then refused_name
        else if size == 0
        then named (record { name = name; end_at = or_else s.end_at (s.offset + 1) })
        else if size / 64 % 4 == 3
        then name_pointer buffer allow size s
        else if not (size / 64 % 4 == 0)
        then refused_name
        else name_label buffer size s)
unfolding name_round name_sized
name_round_bytes buffer allow s = ground (arith, get_elem_within buffer s.offset)

name_label-ne-misread :
    (buffer : List ℕ) (size : ℕ) (s : NameLoop) → name_label buffer size s ≢ misread
name_label-ne-misread buffer size s e = ground (arith, name_label_bytes buffer size s)

name_pointer-ne-misread :
    (buffer : List ℕ) (allow : Bool) (size : ℕ) (s : NameLoop)
    → name_pointer buffer allow size s ≢ misread
name_pointer-ne-misread buffer allow size s e =
    ground (arith, name_pointer_bytes buffer allow size s)

-- No round reads a byte that is not in the buffer.
pub name_round-ne-misread :
    (buffer : List ℕ) (allow : Bool) (s : NameLoop) → name_round buffer allow s ≢ misread
name_round-ne-misread buffer allow s e = ground (
  arith,
  name_round_bytes buffer allow s,
  name_label-ne-misread buffer (get_or buffer s.offset 0) s,
  name_pointer-ne-misread buffer allow (get_or buffer s.offset 0) s,
)
