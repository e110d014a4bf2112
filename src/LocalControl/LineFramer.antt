-- ===== src/LocalControl/LineFramer.antt =====
-- src/local-control/line-framer.ts: `NewlineJsonFramer`. A string is the list of its UTF-16 code
-- units. The `throw` is a result of its own, with the text that is then pending.
pub mod Stream
pub mod Chunks
pub mod Lines
use excubitor.Prelude.{
  ℕ, zero, suc, ◌+◌, ◌*◌, List, [], ◌∷◌, ◌++◌, Option, none, some, Bool, true, false, ◌&&◌, ltb,
  leb, ◌==◌, if◌then◌else◌, length,
}

abbrev pub local_control_max_line_bytes : ℕ
local_control_max_line_bytes = 64 * 1024

abbrev pub newline : ℕ
newline = 10

abbrev pub carriage_return : ℕ
carriage_return = 13

abbrev pub is_high : ℕ → Bool
is_high u = leb 55296 u && ltb u 56320

abbrev pub is_low : ℕ → Bool
is_low u = leb 56320 u && ltb u 57344

-- The bytes of a unit that is not the first of a surrogate pair; a lone surrogate is replaced by a
-- character of three bytes.
abbrev pub unit_bytes : ℕ → ℕ
unit_bytes u = if ltb u 128 then 1 else if ltb u 2048 then 2 else 3

-- `Buffer.byteLength(text, 'utf8')`
unfoldable pub byte_length : List ℕ → ℕ
byte_length [] = 0
byte_length (u ∷ []) = unit_bytes u
byte_length (u ∷ v ∷ us) =
    let pair = byte_length us in
    let single = byte_length (v ∷ us) in
    if is_high u && is_low v then 4 + pair else unit_bytes u + single

-- `indexOf('\n')` with the two slices: the text before and after the first newline.
unfoldable pub split_newline : List ℕ → Option (List ℕ × List ℕ)
split_newline [] = none
split_newline (u ∷ us) =
    let rest = split_newline us in
    if u == newline
    then some ([], us)
    else elim rest [ none ↦ none | some (raw, after) ↦ some (u ∷ raw, after) ]

-- `raw.endsWith('\r') ? raw.slice(0, -1) : raw`
unfoldable pub strip_return : List ℕ → List ℕ
strip_return [] = []
strip_return (u ∷ []) = if u == carriage_return then [] else u ∷ []
strip_return (u ∷ v ∷ us) = u ∷ strip_return (v ∷ us)

-- `if (line.length > 0) lines.push(line)`
abbrev pub push_line : List (List ℕ) → List ℕ → List (List ℕ)
push_line lines [] = lines
push_line lines (u ∷ us) = lines ++ (u ∷ us) ∷ []

-- The lines, or the error; each with what is pending.
pub data Pushed : Type 0 where
  lines_of : List (List ℕ) → List ℕ → Pushed
  line_too_long : List ℕ → Pushed

unfoldable pub frame_loop : ℕ → ℕ → List ℕ → List (List ℕ) → Pushed
frame_loop max_bytes zero pending lines = lines_of lines pending
frame_loop max_bytes (suc fuel) pending lines = elim (split_newline pending) [
  | none ↦ lines_of lines pending
  | some (raw, rest) ↦
      let next = frame_loop max_bytes fuel rest (push_line lines (strip_return raw)) in
      if ltb max_bytes (byte_length raw) then line_too_long rest else next
]

-- The check of what is left after the loop.
unfoldable pub check_pending : ℕ → Pushed → Pushed
check_pending max_bytes (line_too_long rest) = line_too_long rest
check_pending max_bytes (lines_of lines rest) =
    if ltb max_bytes (byte_length rest) then line_too_long rest else lines_of lines rest

-- `push`, on what is pending; each round of the loop takes a newline out of the text, so its length
-- is fuel enough.
unfoldable pub push : ℕ → List ℕ → List ℕ → Pushed
push max_bytes pending chunk =
    let text = pending ++ chunk in
    check_pending max_bytes (frame_loop max_bytes (length text) text [])
