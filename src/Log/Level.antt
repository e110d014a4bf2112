-- ===== src/Log/Level.antt =====
-- src/log/bus.ts (`Channel`, `LogLine`) and `inferLevel` of src/log/ring-buffer.ts. A line is a
-- list of UTF-16 code units, as JavaScript's regular expressions and `toLowerCase` read it.
use Prim.Native.Char.{code}
use Prim.Native.String.{String}
use excubitor.Prelude.{
  ℕ, ◌+◌, List, [], ◌∷◌, ◌++◌, Option, none, some, Bool, true, false, not, ◌&&◌, ◌||◌, leb, ◌==◌,
  if◌then◌else◌,
}

pub data Channel : Type 0 where
  stdout stderr : Channel

pub data LogLevel : Type 0 where
  trace debug info warn error fatal : LogLevel

pub record LogLine : Type 0 where
  pub service_code : String
  pub channel : Channel
  pub ts : ℕ  -- `ts.getTime()`
  pub line : List ℕ

-- The code points of a text, which are its code units if it is ASCII.
abbrev pub codes : String → List ℕ
codes String.[] = []
codes (String.◌∷◌ c s) = code c ∷ codes s

-- The only code units outside A-Z whose lower case has an ASCII letter are U+0130 and U+212A.
lower_unit : ℕ → List ℕ
lower_unit c =
    if leb b'A' c && leb c b'Z'
    then (c + 32) ∷ []
    else if c == 0x130
    then b'i' ∷ 0x307 ∷ []
    else if c == 0x212a
    then b'k' ∷ []
    else c ∷ []

unfoldable pub to_lower : List ℕ → List ℕ
unfolding lower_unit
to_lower [] = []
to_lower (c ∷ s) = lower_unit c ++ to_lower s

-- `\w`
unfoldable pub is_word : ℕ → Bool
is_word c =
    (leb b'a' c && leb c b'z')
    || (leb b'A' c && leb c b'Z')
    || (leb b'0' c && leb c b'9')
    || c == b'_'

abbrev at_boundary : List ℕ → Bool
at_boundary [] = true
at_boundary (c ∷ s) = not (is_word c)

-- `w\b` at the front of `s`, for a `w` of word characters.
unfoldable pub word_here : List ℕ → List ℕ → Bool
unfolding is_word
word_here [] s = at_boundary s
word_here (w ∷ ws) [] = false
word_here (w ∷ ws) (c ∷ s) = if c == w then word_here ws s else false

-- `/\bw\b/` somewhere in the rest of a line; `inside` tells that a word character stands before it.
word_from : List ℕ → Bool → List ℕ → Bool
unfolding word_here is_word
word_from w inside [] = false
word_from w inside (c ∷ s) =
    let rest = word_from w (is_word c) s in if not inside && word_here w (c ∷ s) then true else rest

unfoldable pub has_word : String → List ℕ → Bool
unfolding word_from
has_word w s = word_from (codes w) false s

unfoldable pub infer_level : LogLine → Option LogLevel
unfolding has_word to_lower
infer_level l = elim l.channel [
  | stderr ↦ some error
  | stdout ↦
      let value = to_lower l.line in
      if has_word "fatal" value
      then some fatal
      else if has_word "error" value
          || has_word "err" value
          || has_word "exception" value
          || has_word "traceback" value
      then some error
      else if has_word "warn" value || has_word "warning" value
      then some warn
      else if has_word "info" value
      then some info
      else if has_word "debug" value
      then some debug
      else if has_word "trace" value
      then some trace
      else none
]
