-- ===== src/LocalControl/LineFramer/Chunks.antt =====
-- src/local-control/line-framer.ts: a text that comes in two chunks.
use excubitor.Prelude.{
  ℕ, ◌≤◌, ◌<◌, ◌≡◌, refl, sym, ap, ◌∙◌, List, [], ◌∷◌, ◌++◌, Option, none, some, ltb, ◌==◌, arith,
  inl, inr, Bool-cases,
}
use mathlib.Core.List.{append-nil, append_assoc}
use excubitor.LocalControl.LineFramer.{
  newline, byte_length, unit_bytes, split_newline, strip_return, push_line, push,
}
use excubitor.LocalControl.LineFramer.Stream.{
  outcome, scan, finish, push-scan, scan_line, scan_inside, scan_ends, split_newline-snoc,
}

unit_bytes-le : (u : ℕ) → unit_bytes u ≤ 3
unit_bytes-le u = ground arith

-- A text that grows does not get shorter in bytes.
byte_length-snoc : (us : List ℕ) (u : ℕ) → byte_length us ≤ byte_length (us ++ u ∷ [])
unfolding byte_length
byte_length-snoc [] u = omega arith
byte_length-snoc (v ∷ []) u = ground (arith, unit_bytes-le v)
byte_length-snoc (v ∷ w ∷ us) u = ground (arith, byte_length-snoc us u, byte_length-snoc (w ∷ us) u)

-- Once a line is too long, the text that follows does not mend it.
scan_too_long :
    (max_bytes : ℕ) (line us : List ℕ) (lines : List (List ℕ))
    → max_bytes < byte_length line
    → finish max_bytes (scan max_bytes line us lines) ≡ none
unfolding scan
scan_too_long max_bytes line [] lines h = ground arith
scan_too_long max_bytes line (u ∷ us) lines h =
    let grown = byte_length-snoc line u in
    elim (Bool-cases (u == newline)) [
      | inl ends ↦ rw (scan_ends max_bytes u line us lines ends) (ground arith)
      | inr inside ↦
          ap (finish max_bytes) (scan_inside max_bytes u line us lines inside)
          ∙ scan_too_long max_bytes (line ++ u ∷ []) us lines (omega arith)
    ]

-- Lines in front of those that the second part yields.
abbrev pub after : List (List ℕ) → Option (List (List ℕ) × List ℕ) → Option (List (List ℕ) × List ℕ)
after lines none = none
after lines (some (more, rest)) = some (lines ++ more, rest)

push_line-append :
    (xs ys : List (List ℕ)) (line : List ℕ) → push_line (xs ++ ys) line ≡ xs ++ push_line ys line
push_line-append xs ys [] = refl
push_line-append xs ys (u ∷ us) = append_assoc xs ys ((u ∷ us) ∷ [])

scan-after :
    (max_bytes : ℕ) (line us : List ℕ) (xs ys : List (List ℕ))
    → scan max_bytes line us (xs ++ ys) ≡ after xs (scan max_bytes line us ys)
unfolding scan
scan-after max_bytes line [] xs ys = refl
scan-after max_bytes line (u ∷ us) xs ys = elim (Bool-cases (u == newline)) [
  | inl ends ↦
      let pushed = push_line-append xs ys (strip_return line) in
      let next = scan-after max_bytes [] us xs (push_line ys (strip_return line)) in
      ground (arith, ends, pushed, next)
  | inr inside ↦ ground (arith, inside, scan-after max_bytes (line ++ u ∷ []) us xs ys)
]

-- The second part goes on where the first ended.
abbrev pub then_scan :
    ℕ → List ℕ → Option (List (List ℕ) × List ℕ) → Option (List (List ℕ) × List ℕ)
then_scan max_bytes us none = none
then_scan max_bytes us (some (lines, line)) = scan max_bytes line us lines

scan-append :
    (max_bytes : ℕ) (line us vs : List ℕ) (lines : List (List ℕ))
    → scan max_bytes line (us ++ vs) lines ≡ then_scan max_bytes vs (scan max_bytes line us lines)
unfolding scan
scan-append max_bytes line [] vs lines = refl
scan-append max_bytes line (u ∷ us) vs lines = elim (Bool-cases (u == newline)) [
  | inl ends ↦
      ground (arith, ends, scan-append max_bytes [] us vs (push_line lines (strip_return line)))
  | inr inside ↦ ground (arith, inside, scan-append max_bytes (line ++ u ∷ []) us vs lines)
]

-- What is pending never has a newline.
abbrev IsLine : Option (List (List ℕ) × List ℕ) → Type 0
IsLine none = Unit {0}
IsLine (some (lines, line)) = split_newline line ≡ none

scan-IsLine :
    (max_bytes : ℕ) (line us : List ℕ) (lines : List (List ℕ))
    → split_newline line ≡ none
    → IsLine (scan max_bytes line us lines)
unfolding scan split_newline
scan-IsLine max_bytes line [] lines h = h
scan-IsLine max_bytes line (u ∷ us) lines h = elim (Bool-cases (u == newline)) [
  | inl ends ↦ elim (Bool-cases (ltb max_bytes (byte_length line))) [
    | inl long ↦ rw (ends, long) tt
    | inr short ↦
        rw (ends, short) (scan-IsLine max_bytes [] us (push_line lines (strip_return line)) refl)
  ]
  | inr inside ↦
      rw inside
        (scan-IsLine max_bytes (line ++ u ∷ []) us lines (split_newline-snoc line u h inside))
]

finish-after :
    (max_bytes : ℕ) (lines : List (List ℕ)) (r : Option (List (List ℕ) × List ℕ))
    → finish max_bytes (after lines r) ≡ after lines (finish max_bytes r)
finish-after max_bytes lines none = refl
finish-after max_bytes lines (some (more, line)) = ground arith

push-scan_line :
    (max_bytes : ℕ) (pending chunk : List ℕ)
    → split_newline pending ≡ none
    → outcome (push max_bytes pending chunk) ≡ finish max_bytes (scan max_bytes pending chunk [])
push-scan_line max_bytes pending chunk h =
    push-scan max_bytes pending chunk
    ∙ ap (finish max_bytes) (scan_line max_bytes [] pending chunk [] h)

-- What the chunks `us` and `vs` yield one after the other, from what the first one did.
abbrev pub then_push :
    ℕ → List ℕ → Option (List (List ℕ) × List ℕ) → Option (List (List ℕ) × List ℕ)
then_push max_bytes vs none = none
then_push max_bytes vs (some (lines, rest)) = after lines (outcome (push max_bytes rest vs))

then_scan-push :
    (max_bytes : ℕ) (vs : List ℕ) (r : Option (List (List ℕ) × List ℕ))
    → IsLine r
    → finish max_bytes (then_scan max_bytes vs r) ≡ then_push max_bytes vs (finish max_bytes r)
then_scan-push max_bytes vs none i = refl
then_scan-push max_bytes vs (some (lines, line)) i =
    elim (Bool-cases (ltb max_bytes (byte_length line))) [
      | inl long ↦
          scan_too_long max_bytes line vs lines (ground (arith, long)) ∙ ground (arith, long)
      | inr short ↦
          ap (λ ls. finish max_bytes (scan max_bytes line vs ls)) (sym (append-nil lines))
          ∙ ap (finish max_bytes) (scan-after max_bytes line vs lines [])
          ∙ finish-after max_bytes lines (scan max_bytes line vs [])
          ∙ ap (after lines) (sym (push-scan_line max_bytes line vs i))
          ∙ rw short refl
    ]

-- If nothing but the start of a line is pending, then a text gives the same lines, or an error, and
-- leaves the same pending, whether it comes in one chunk or in two.
pub push-append :
    (max_bytes : ℕ) (pending us vs : List ℕ)
    → split_newline pending ≡ none
    → outcome (push max_bytes pending (us ++ vs))
      ≡ then_push max_bytes vs (outcome (push max_bytes pending us))
push-append max_bytes pending us vs h =
    push-scan_line max_bytes pending (us ++ vs) h
    ∙ ap (finish max_bytes) (scan-append max_bytes pending us vs [])
    ∙ then_scan-push max_bytes vs (scan max_bytes pending us [])
        (scan-IsLine max_bytes pending us [] h)
    ∙ ap (then_push max_bytes vs) (sym (push-scan_line max_bytes pending us h))
