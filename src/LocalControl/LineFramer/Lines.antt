-- ===== src/LocalControl/LineFramer/Lines.antt =====
-- src/local-control/line-framer.ts: the lines that client.ts and server.ts send, each with a
-- newline.
use excubitor.Prelude.{ℕ, ◌≤◌, ◌≡◌, ◌≢◌, refl, ap, ◌∙◌, List, [], ◌∷◌, ◌++◌, none, some, arith, All}
use mathlib.Core.List.{append-nil, append_assoc}
use excubitor.LocalControl.LineFramer.{
  newline, byte_length, split_newline, strip_return, push_line, push,
}
use excubitor.LocalControl.LineFramer.Stream.{
  outcome, scan, finish, push-scan, scan_line, scan_ends,
}

unfoldable pub encode : List (List ℕ) → List ℕ
encode [] = []
encode (line ∷ lines) = line ++ newline ∷ encode lines

-- A line that can be sent: no newline, no carriage return at its end, not empty and not too long.
abbrev pub IsSendable : ℕ → List ℕ → Type 0
IsSendable max_bytes line =
    (split_newline line ≡ none)
    × (strip_return line ≡ line)
    × (line ≢ [])
    × (byte_length line ≤ max_bytes)

push_line_lem :
    (lines : List (List ℕ)) (line : List ℕ) → line ≢ [] → push_line lines line ≡ lines ++ line ∷ []
push_line_lem lines [] h = absurd (h refl)
push_line_lem lines (u ∷ us) h = refl

scan-encode :
    (max_bytes : ℕ) (lines done : List (List ℕ))
    → All (IsSendable max_bytes) lines
    → scan max_bytes [] (encode lines) done ≡ some (done ++ lines, [])
unfolding scan encode
scan-encode max_bytes [] done a = rw (append-nil done) refl
scan-encode max_bytes (line ∷ lines) done ((h, strip, full, short), a) =
    scan_line max_bytes [] line (newline ∷ encode lines) done h
    ∙ scan_ends max_bytes newline line (encode lines) done refl
    ∙ ground (arith, short)
    ∙ ap (scan max_bytes [] (encode lines))
        (ap (push_line done) strip ∙ push_line_lem done line full)
    ∙ scan-encode max_bytes lines (done ++ line ∷ []) a
    ∙ ap (λ ls. some (ls, [])) (append_assoc done (line ∷ []) lines)

-- Lines that can be sent, each sent with a newline, are the lines that arrive, and nothing is left
-- pending.
pub push-encode :
    (max_bytes : ℕ) (lines : List (List ℕ))
    → All (IsSendable max_bytes) lines
    → outcome (push max_bytes [] (encode lines)) ≡ some (lines, [])
unfolding byte_length
push-encode max_bytes lines a =
    push-scan max_bytes [] (encode lines)
    ∙ ap (finish max_bytes) (scan-encode max_bytes lines [] a)
    ∙ ground arith
