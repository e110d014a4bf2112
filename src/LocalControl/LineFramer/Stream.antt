-- ===== src/LocalControl/LineFramer/Stream.antt =====
-- src/local-control/line-framer.ts: the loop of `push` against a reading of the text unit by unit.
use excubitor.Prelude.{
  ℕ, zero, suc, ◌≤◌, ◌≡◌, refl, sym, ap, ◌∙◌, List, [], ◌∷◌, ◌++◌, Option, none, some, true, false,
  ltb, ◌==◌, if◌then◌else◌, length, arith, inl, inr, Bool-cases,
}
use mathlib.Core.List.{append-nil, append_assoc}
use excubitor.LocalControl.LineFramer.{
  newline, byte_length, split_newline, strip_return, push_line, Pushed, lines_of, line_too_long,
  frame_loop, check_pending, push,
}

-- The lines and the pending text, unless there was an error.
abbrev pub outcome : Pushed → Option (List (List ℕ) × List ℕ)
outcome (lines_of lines rest) = some (lines, rest)
outcome (line_too_long rest) = none

-- One unit at a time, with the line so far.
unfoldable pub scan : ℕ → List ℕ → List ℕ → List (List ℕ) → Option (List (List ℕ) × List ℕ)
scan max_bytes line [] lines = some (lines, line)
scan max_bytes line (u ∷ us) lines =
    let ended = scan max_bytes [] us (push_line lines (strip_return line)) in
    let longer = scan max_bytes (line ++ u ∷ []) us lines in
    if u == newline then (if ltb max_bytes (byte_length line) then none else ended) else longer

abbrev pub finish : ℕ → Option (List (List ℕ) × List ℕ) → Option (List (List ℕ) × List ℕ)
finish max_bytes none = none
finish max_bytes (some (lines, line)) =
    if ltb max_bytes (byte_length line) then none else some (lines, line)

split_newline-at :
    (line us : List ℕ) (u : ℕ)
    → split_newline line ≡ none
    → u == newline ≡ true
    → split_newline (line ++ u ∷ us) ≡ some (line, us)
unfolding split_newline
split_newline-at [] us u h e = ground (arith, e)
split_newline-at (v ∷ line) us u h e = ground (arith, split_newline-at line us u, e)

pub split_newline-snoc :
    (line : List ℕ) (u : ℕ)
    → split_newline line ≡ none
    → u == newline ≡ false
    → split_newline (line ++ u ∷ []) ≡ none
unfolding split_newline
split_newline-snoc [] u h e = ground (arith, e)
split_newline-snoc (v ∷ line) u h e = ground (arith, split_newline-snoc line u, e)

frame_loop-none :
    (max_bytes fuel : ℕ) (text : List ℕ) (lines : List (List ℕ))
    → split_newline text ≡ none
    → frame_loop max_bytes fuel text lines ≡ lines_of lines text
unfolding frame_loop
frame_loop-none max_bytes zero text lines h = refl
frame_loop-none max_bytes (suc fuel) text lines h = ground (arith, h)

frame_loop-some :
    (max_bytes fuel : ℕ) (text raw rest : List ℕ) (lines : List (List ℕ))
    → split_newline text ≡ some (raw, rest)
    → frame_loop max_bytes (suc fuel) text lines ≡ (
        if ltb max_bytes (byte_length raw)
        then line_too_long rest
        else frame_loop max_bytes fuel rest (push_line lines (strip_return raw)))
unfolding frame_loop
frame_loop-some max_bytes fuel text raw rest lines h = ground (arith, h)

frame_loop-scan :
    (max_bytes fuel : ℕ) (line us : List ℕ) (lines : List (List ℕ))
    → split_newline line ≡ none
    → length us ≤ fuel
    → outcome (frame_loop max_bytes fuel (line ++ us) lines) ≡ scan max_bytes line us lines
unfolding scan split_newline
frame_loop-scan max_bytes fuel line [] lines h l =
    rw (append-nil line, frame_loop-none max_bytes fuel line lines h) refl
frame_loop-scan max_bytes zero line (u ∷ us) lines h l = absurd (omega arith)
frame_loop-scan max_bytes (suc fuel) line (u ∷ us) lines h l = elim (Bool-cases (u == newline)) [
  | inl ends ↦
      let next =
        frame_loop-scan max_bytes fuel [] us (push_line lines (strip_return line)) refl
          (omega arith) in
      ap outcome (
        frame_loop-some max_bytes fuel (line ++ u ∷ us) line us lines
          (split_newline-at line us u h ends))
      ∙ ground (arith, next, ends)
  | inr inside ↦
      let next =
        frame_loop-scan max_bytes (suc fuel) (line ++ u ∷ []) us lines
          (split_newline-snoc line u h inside) (omega arith) in
      ap (λ text. outcome (frame_loop max_bytes (suc fuel) text lines))
        (sym (append_assoc line (u ∷ []) us))
      ∙ next
      ∙ ground (arith, inside)
]

check_pending-finish :
    (max_bytes : ℕ) (p : Pushed)
    → outcome (check_pending max_bytes p) ≡ finish max_bytes (outcome p)
unfolding check_pending
check_pending-finish max_bytes (lines_of lines rest) = ground arith
check_pending-finish max_bytes (line_too_long rest) = refl

-- What is pending with the chunk, read in one go.
pub push-scan :
    (max_bytes : ℕ) (pending chunk : List ℕ)
    → outcome (push max_bytes pending chunk)
      ≡ finish max_bytes (scan max_bytes [] (pending ++ chunk) [])
unfolding push split_newline
push-scan max_bytes pending chunk =
    let text = pending ++ chunk in
    check_pending-finish max_bytes (frame_loop max_bytes (length text) text [])
    ∙ ap (finish max_bytes) (frame_loop-scan max_bytes (length text) [] text [] refl (omega arith))

pub scan_inside :
    (max_bytes u : ℕ) (line us : List ℕ) (lines : List (List ℕ))
    → u == newline ≡ false
    → scan max_bytes line (u ∷ us) lines ≡ scan max_bytes (line ++ u ∷ []) us lines
unfolding scan
scan_inside max_bytes u line us lines h = ground (arith, h)

pub scan_ends :
    (max_bytes u : ℕ) (line us : List ℕ) (lines : List (List ℕ))
    → u == newline ≡ true
    → scan max_bytes line (u ∷ us) lines ≡ (
        if ltb max_bytes (byte_length line)
        then none
        else scan max_bytes [] us (push_line lines (strip_return line)))
unfolding scan
scan_ends max_bytes u line us lines h = ground (arith, h)

split_newline-cons :
    (u : ℕ) (us : List ℕ)
    → split_newline (u ∷ us) ≡ none
    → (u == newline ≡ false) × (split_newline us ≡ none)
unfolding split_newline
split_newline-cons u us h = ground arith

-- A text without a newline is added to the line.
pub scan_line :
    (max_bytes : ℕ) (line text us : List ℕ) (lines : List (List ℕ))
    → split_newline text ≡ none
    → scan max_bytes line (text ++ us) lines ≡ scan max_bytes (line ++ text) us lines
scan_line max_bytes line [] us lines h = ap (λ l. scan max_bytes l us lines) (sym (append-nil line))
scan_line max_bytes line (u ∷ text) us lines h =
    let (inside, tail) = split_newline-cons u text h in
    scan_inside max_bytes u line (text ++ us) lines inside
    ∙ scan_line max_bytes (line ++ u ∷ []) text us lines tail
    ∙ ap (λ l. scan max_bytes l us lines) (append_assoc line (u ∷ []) text)
