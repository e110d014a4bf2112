-- ===== src/Log/Tests.antt =====
-- Runs of the log pipeline on small inputs, and the theorems at inputs that meet their hypotheses.
use excubitor.Prelude.{
  ℕ, arith, ◌≡◌, refl, String, List, [], ◌∷◌, none, some, map, take, reverse, filter,
}
use excubitor.Log.Circular.{new, push, newest_first, push_all, resize, collect}
use excubitor.Log.Circular.Contents.{new-IsValid, newest_first-push_all, push-IsValid}
use excubitor.Prelude.Maps.{map_values}
use excubitor.Log.Level.{LogLine, stdout, error, warn, codes, infer_level}
use excubitor.Log.RingBuffer.{
  BufferedLogLine, LogRingBufferConfig, LogRingBuffer, err, ring_lines_global, create, configure,
  append, recent, empty_buffer, RecentLogOptions, buffered, wanted, validate_config,
}
use excubitor.Log.RingBuffer.Laws.{configure_lines, recent_lem}
use excubitor.Log.RingBuffer.History.{append_all, numbered, create-append_all_lines}

abbrev small : LogRingBufferConfig
small = record { per_service = 2; global = 3 }

abbrev line_of : String → String → LogLine
line_of code text = record { service_code = code; channel = stdout; ts = 7; line = codes text }

abbrev sample : List LogLine
sample =
    line_of "a" "boot" ∷ line_of "b" "[WARN] disk" ∷ line_of "a" "no error" ∷ line_of "a" "ok" ∷ []

levels : map infer_level sample ≡ none ∷ some warn ∷ some error ∷ none ∷ []
unfolding infer_level
levels = refl

kept_ids :
    map
      (λ (l : BufferedLogLine). l.id)
      (newest_first (append_all sample (empty_buffer small)).global_lines)
    ≡ 4 ∷ 3 ∷ 2 ∷ []
unfolding append_all append push new newest_first buffered
kept_ids = refl

create-append_all_lines_example :
    newest_first (append_all sample (empty_buffer small)).global_lines
    ≡ take 3 (reverse (numbered 1 sample))
unfolding create validate_config
create-append_all_lines_example = (create-append_all_lines small (empty_buffer small) sample refl).0

newest_first-push_all_example :
    newest_first {A = ℕ} (push_all (4 ∷ 5 ∷ []) (push 3 (new 2))) ≡ 5 ∷ 4 ∷ []
unfolding new push newest_first collect
newest_first-push_all_example =
    newest_first-push_all {A = ℕ} (4 ∷ 5 ∷ []) (push 3 (new 2))
      (push-IsValid 3 (new 2) (new-IsValid 2 (omega arith)))

abbrev smaller : LogRingBufferConfig
smaller = record { per_service = 1; global = 2 }

abbrev filled : LogRingBuffer
filled = append_all sample (empty_buffer small)

-- The buffer `filled` with the sizes of `smaller`.
abbrev shrunk : LogRingBuffer
shrunk = record filled {
  config = smaller;
  global_lines = resize 2 filled.global_lines;
  per_service = map_values (resize 1) filled.per_service;
}

configure_lines_example :
    newest_first shrunk.global_lines ≡ take 2 (newest_first filled.global_lines)
unfolding configure validate_config
configure_lines_example = (configure_lines smaller filled shrunk refl).0

configure_refused :
    configure (record { per_service = 5; global = 0 }) filled ≡ err ring_lines_global
unfolding configure validate_config
configure_refused = refl

abbrev newest_of_a : RecentLogOptions
newest_of_a = record { codes = some ("a" ∷ []); limit = 0 }

recent_lem_example :
    recent newest_of_a filled
    ≡ take 1 (filter (wanted (some ("a" ∷ []))) (newest_first filled.global_lines))
recent_lem_example = recent_lem newest_of_a filled
