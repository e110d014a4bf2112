-- ===== src/Log/RingBuffer.antt =====
-- src/log/ring-buffer.ts: the class `LogRingBuffer`. `Map` is an association list in the order of
-- insertion; a `throw` of `validateConfig` is an error value, and then nothing has changed.
pub mod Laws
pub mod History
use excubitor.Prelude.{
  ℕ, ◌+◌, String, str_eq, List, [], ◌∷◌, ◌++◌, Option, none, some, Bool, true, false, not, ltb, leb,
  if◌then◌else◌, length, take, any,
}
use excubitor.Prelude.Maps.{lookup, insert, map_values}
use excubitor.Log.Circular.{Circular, new, push, newest_first, resize}
use excubitor.Log.Level.{Channel, LogLevel, LogLine, infer_level}

pub record BufferedLogLine : Type 0 where
  pub id : ℕ
  pub code : String
  pub channel : Channel
  pub ts : ℕ
  pub level : Option LogLevel
  pub line : List ℕ

-- Sizes that are no natural numbers are refused by the same checks as 0, and have no value here.
pub record LogRingBufferConfig : Type 0 where
  pub per_service : ℕ
  pub global : ℕ

pub data ConfigError : Type 0 where
  ring_lines_per_service ring_lines_global : ConfigError

pub data Result {ℓ} (A : Type ℓ) : Type ℓ where
  ok : A → Result A
  err : ConfigError → Result A

pub record LogRingBuffer : Type 0 where
  pub config : LogRingBufferConfig
  pub per_service : List (String × Circular BufferedLogLine)
  pub global_lines : Circular BufferedLogLine
  pub next_id : ℕ

unfoldable pub validate_config : LogRingBufferConfig → Option ConfigError
validate_config c =
    if leb c.per_service 0
    then some ring_lines_per_service
    else if leb c.global 0
    then some ring_lines_global
    else none

abbrev checked {ℓ} : {A : Type ℓ} → LogRingBufferConfig → A → Result A
checked c a = elim (validate_config c) [ some e ↦ err e | none ↦ ok a ]

abbrev pub empty_buffer : LogRingBufferConfig → LogRingBuffer
empty_buffer c = record { config = c; per_service = []; global_lines = new c.global; next_id = 1 }

-- The constructor.
unfoldable pub create : LogRingBufferConfig → Result LogRingBuffer
create c = checked c (empty_buffer c)

unfoldable pub configure : LogRingBufferConfig → LogRingBuffer → Result LogRingBuffer
configure c b = checked c (record b {
  config = c;
  global_lines = resize c.global b.global_lines;
  per_service = map_values (resize c.per_service) b.per_service;
})

unfoldable pub buffered : ℕ → LogLine → BufferedLogLine
buffered id l = record {
  id = id;
  code = l.service_code;
  channel = l.channel;
  ts = l.ts;
  level = infer_level l;
  line = l.line;
}

abbrev or_else {ℓ} : {A : Type ℓ} → Option A → A → A
or_else none a = a
or_else (some b) a = b

unfoldable pub append : LogLine → LogRingBuffer → LogRingBuffer × BufferedLogLine
append l b =
    let line = buffered b.next_id l in
    let service_lines = or_else (lookup l.service_code b.per_service) (new b.config.per_service) in
    (
      record b {
        next_id = b.next_id + 1;
        global_lines = push line b.global_lines;
        per_service = insert l.service_code (push line service_lines) b.per_service;
      },
      line,
    )

pub record RecentLogOptions : Type 0 where
  pub codes : Option (List String)
  pub limit : ℕ

-- `!options.codes || options.codes.has(code)`
unfoldable pub wanted : Option (List String) → BufferedLogLine → Bool
wanted none l = true
wanted (some cs) l = any (λ c. str_eq c l.code) cs

recent_loop : RecentLogOptions → List BufferedLogLine → List BufferedLogLine → List BufferedLogLine
unfolding wanted
recent_loop o result [] = result
recent_loop o result (line ∷ lines) =
    let skipped = recent_loop o result lines in
    let added = recent_loop o (result ++ line ∷ []) lines in
    if not (wanted o.codes line)
    then skipped
    else if leb o.limit (length (result ++ line ∷ []))
    then result ++ line ∷ []
    else added

unfoldable pub recent : RecentLogOptions → LogRingBuffer → List BufferedLogLine
unfolding recent_loop
recent o b = recent_loop o [] (newest_first b.global_lines)

unfoldable pub recent_for_service : String → ℕ → LogRingBuffer → List BufferedLogLine
recent_for_service code limit b = elim (lookup code b.per_service) [
  | none ↦ []
  | some lines ↦ take limit (newest_first lines)
]

unfoldable pub clear : LogRingBuffer → LogRingBuffer
clear b = record b { per_service = []; global_lines = new b.config.global; next_id = 1 }
