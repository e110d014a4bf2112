-- ===== src/Log/RingBuffer/History.antt =====
-- src/log/ring-buffer.ts: whole runs of the log ring buffer against the list of all lines that were
-- appended.
use mathlib.Core.List.{reverse-cons, append_assoc, append-nil}
use excubitor.Prelude.{
  Bool, true, take-nil, sym, take-take, filter-append, filter-true, ℕ, ◌+◌, ◌≡◌, refl, ap, ◌∙◌,
  String, str_eq, List, [], ◌∷◌, ◌++◌, take, filter, reverse, arith, take-append-take, Bool-cases,
  inl, inr,
}
use excubitor.Log.Circular.{newest_first}
use excubitor.Log.Circular.Contents.{newest_first-new}
use excubitor.Prelude.Maps.{lookup}
use excubitor.Log.Level.{LogLine}
use excubitor.Log.RingBuffer.{
  BufferedLogLine, LogRingBufferConfig, LogRingBuffer, ok, create, empty_buffer, buffered, append,
}
use excubitor.Log.RingBuffer.Laws.{
  IsSound, service_lines, create-eq-ok, empty_buffer-IsSound, append-IsSound, newest_first-append,
  service_lines-append,
}

-- Append the lines in order.
unfoldable pub append_all : List LogLine → LogRingBuffer → LogRingBuffer
append_all [] b = b
append_all (l ∷ ls) b = append_all ls (append l b).0

-- The lines as they are buffered, with the ids `n`, `n + 1`, ...
unfoldable pub numbered : ℕ → List LogLine → List BufferedLogLine
numbered n [] = []
numbered n (l ∷ ls) = buffered n l ∷ numbered (n + 1) ls

append-next_id : (l : LogLine) (b : LogRingBuffer) → (append l b).0.next_id ≡ b.next_id + 1
unfolding append
append-next_id l b = refl

append-config : (l : LogLine) (b : LogRingBuffer) → (append l b).0.config ≡ b.config
unfolding append
append-config l b = refl

append-line : (l : LogLine) (b : LogRingBuffer) → (append l b).1 ≡ buffered b.next_id l
unfolding append
append-line l b = refl

pub append_all-IsSound :
    (ls : List LogLine) (b : LogRingBuffer) → IsSound b → IsSound (append_all ls b)
unfolding append_all
append_all-IsSound [] b sound = sound
append_all-IsSound (l ∷ ls) b sound =
    append_all-IsSound ls (append l b).0 (append-IsSound l b sound)

-- `shown n` is a list that an append extends at the front and cuts to `n` entries.
append_all-take :
    (view : LogRingBuffer → List BufferedLogLine) (keeps : LogRingBuffer → ℕ)
    (P : BufferedLogLine → Bool)
    → ((l : LogLine) (b : LogRingBuffer) → keeps (append l b).0 ≡ keeps b)
    → ((l : LogLine) (b : LogRingBuffer)
        → IsSound b
        → view b ≡ take (keeps b) (view b)
        → view (append l b).0 ≡ take (keeps b) (filter P (buffered b.next_id l ∷ []) ++ view b))
    → (ls : List LogLine) (b : LogRingBuffer) → IsSound b
    → view b ≡ take (keeps b) (view b)
    → view (append_all ls b) ≡ take (keeps b) (filter P (reverse (numbered b.next_id ls)) ++ view b)
unfolding append_all numbered
append_all-take view keeps P same step [] b sound h = h
append_all-take view keeps P same step (l ∷ ls) b sound h =
    append_all-take view keeps P same step ls (append l b).0 (append-IsSound l b sound)
      (rw (same l b, step l b sound h) (sym (take-take (keeps b) _)))
    ∙ rw (same l b, step l b sound h, append-next_id l b)
        (take-append-take (keeps b) (keeps b) newer _ (omega arith)
          ∙ ap (take (keeps b)) (
              sym (append_assoc newer _ _)
              ∙ ap (λ lines. lines ++ view b)
                  (sym (
                      filter-append P (reverse (numbered (b.next_id + 1) ls))
                        (buffered b.next_id l ∷ []))
                    ∙ ap (filter P)
                        (sym (reverse-cons (buffered b.next_id l) (numbered (b.next_id + 1) ls))))))
  where
    newer : List BufferedLogLine
    newer = filter P (reverse (numbered (b.next_id + 1) ls))

global-append :
    (l : LogLine) (b : LogRingBuffer)
    → IsSound b
    → newest_first b.global_lines ≡ take b.config.global (newest_first b.global_lines)
    → newest_first (append l b).0.global_lines
      ≡ take b.config.global
          (filter (λ _. true) (buffered b.next_id l ∷ []) ++ newest_first b.global_lines)
global-append l b sound _ = rw (newest_first-append l b sound, append-line l b)

module _ (code : String) where
  abbrev served : BufferedLogLine → Bool
  served l = str_eq l.code code

  service-append :
      (l : LogLine) (b : LogRingBuffer)
      → IsSound b
      → service_lines code b ≡ take b.config.per_service (service_lines code b)
      → service_lines code (append l b).0
        ≡ take b.config.per_service
            (filter served (buffered b.next_id l ∷ []) ++ service_lines code b)
  unfolding buffered
  service-append l b sound fits =
      service_lines-append l b sound code ∙ elim (Bool-cases (str_eq l.service_code code)) [
        | inl same ↦ rw (same, append-line l b)
        | inr other ↦ rw other fits
      ]

-- From the start, the buffer shows all lines, newest first, cut to the configured size, and for
-- each service its own lines in the same way; ids count from 1.
pub create-append_all_lines :
    (c : LogRingBufferConfig) (b : LogRingBuffer) (ls : List LogLine)
    → create c ≡ ok b
    → let all = reverse (numbered 1 ls) in
      (newest_first (append_all ls b).global_lines ≡ take c.global all)
      × ((code : String)
          → service_lines code (append_all ls b)
            ≡ take c.per_service (filter (λ l. str_eq l.code code) all))
unfolding service_lines lookup
create-append_all_lines c b ls h =
    let (p, g, e) = create-eq-ok c b h in
    let sound = empty_buffer-IsSound c p g in
    let empty : newest_first (empty_buffer c).global_lines ≡ [] = newest_first-new c.global in
    rw e (
      append_all-take (λ b. newest_first b.global_lines) (λ b. b.config.global) (λ _. true)
            (λ l b. ap (λ d. d.global) (append-config l b)) global-append ls (empty_buffer c) sound
            (rw empty (sym (take-nil c.global)))
          ∙ rw (empty, append-nil (filter (λ _. true) (reverse (numbered 1 ls))))
              (ap (take c.global) (filter-true (reverse (numbered 1 ls)))),
      λ code.
          append_all-take (service_lines code) (λ b. b.config.per_service) (served code)
            (λ l b. ap (λ d. d.per_service) (append-config l b)) (service-append code) ls
            (empty_buffer c) sound (sym (take-nil c.per_service))
          ∙ ap (take c.per_service) (append-nil (filter (served code) (reverse (numbered 1 ls)))),
    )
