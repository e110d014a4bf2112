-- ===== src/Log/RingBuffer/Laws.antt =====
-- src/log/ring-buffer.ts: one operation of the log ring buffer at a time.
use excubitor.Prelude.{
  ℕ, ◌<◌, ◌≡◌, refl, sym, ap, ap₂, subst, ◌∙◌, String, str_eq, eq_iff, List, [], ◌∷◌, ◌++◌, Option,
  none, some, leb, if◌then◌else◌, length, take, filter, max, arith, some_injective, Option-cases,
  take_of_length-le, take-append_exact, leb→le, take-nil, length-append, inl, inr, Bool-cases,
}
use mathlib.Core.List.{append_assoc, append-nil}
use excubitor.Prelude.Maps.{lookup, map_values, lookup-insert, lookup-map_values}
use excubitor.Log.Circular.{Circular, new, push, newest_first, resize}
use excubitor.Log.Circular.Contents.{
  IsValid, push-IsValid, newest_first-push, capacity-push, new-IsValid, newest_first-new,
  resize-IsValid, capacity-resize, newest_first-resize,
}
use excubitor.Log.Level.{LogLine}
use excubitor.Log.RingBuffer.{
  BufferedLogLine, LogRingBufferConfig, LogRingBuffer, RecentLogOptions, ok, empty_buffer, create,
  configure, buffered, append, wanted, recent_loop, recent, recent_for_service, validate_config,
  or_else,
}

-- The circular buffers are well formed and have the configured sizes.
pub record IsSound (b : LogRingBuffer) : Type 0 where
  pub global_valid : IsValid b.global_lines
  pub global_sized : b.global_lines.capacity ≡ b.config.global
  pub service_size : 0 < b.config.per_service
  pub services :
      (code : String) (c : Circular BufferedLogLine)
      → lookup code b.per_service ≡ some c
      → IsValid c × (c.capacity ≡ b.config.per_service)

-- The lines held for one service, newest first.
abbrev lines_of : Option (Circular BufferedLogLine) → List BufferedLogLine
lines_of none = []
lines_of (some c) = newest_first c

unfoldable pub service_lines : String → LogRingBuffer → List BufferedLogLine
service_lines code b = lines_of (lookup code b.per_service)

pub recent_for_service_lem :
    (code : String) (limit : ℕ) (b : LogRingBuffer)
    → recent_for_service code limit b ≡ take limit (service_lines code b)
unfolding recent_for_service service_lines
recent_for_service_lem code limit b = elim (Option-cases (lookup code b.per_service)) [
  | inl e ↦ rw (e, recent_for_service) (sym (take-nil limit))
  | inr (c, e) ↦ rw (e, recent_for_service)
]

recent_loop_lem :
    (o : RecentLogOptions) (result lines : List BufferedLogLine)
    → length result < max 1 o.limit
    → recent_loop o result lines ≡ take (max 1 o.limit) (result ++ filter (wanted o.codes) lines)
unfolding recent_loop
recent_loop_lem o result [] h =
    rw (append-nil result) (sym (take_of_length-le (max 1 o.limit) result (omega arith)))
recent_loop_lem o result (line ∷ lines) h = elim (Bool-cases (wanted o.codes line)) [
  | inr out ↦ rw out (recent_loop_lem o result lines h)
  | inl kept ↦
      let more = length-append result (line ∷ []) in
      rw (kept, ← append_assoc result (line ∷ []) (filter (wanted o.codes) lines))
        (elim (Bool-cases (leb o.limit (length (result ++ line ∷ [])))) [
          | inl full ↦ rw full (
              sym (
                take-append_exact (max 1 o.limit) (result ++ line ∷ []) _
                  (omega (arith, more, leb→le _ _ full))))
          | inr room ↦
              rw room (recent_loop_lem o (result ++ line ∷ []) lines (ground (arith, more)))
        ])
]

-- `recent` gives the newest wanted lines up to the limit. It cuts the list only after a line is
-- added, so the limit 0 works as the limit 1.
pub recent_lem :
    (o : RecentLogOptions) (b : LogRingBuffer)
    → recent o b ≡ take (max 1 o.limit) (filter (wanted o.codes) (newest_first b.global_lines))
unfolding recent
recent_lem o b = recent_loop_lem o [] (newest_first b.global_lines) (omega arith)

pub create-eq-ok :
    (c : LogRingBufferConfig) (b : LogRingBuffer)
    → create c ≡ ok b
    → (0 < c.per_service) × (0 < c.global) × (b ≡ empty_buffer c)
unfolding create validate_config
create-eq-ok c b h = ground arith

pub empty_buffer-IsSound :
    (c : LogRingBufferConfig) → 0 < c.per_service → 0 < c.global → IsSound (empty_buffer c)
unfolding lookup new
empty_buffer-IsSound c p g = record {
  global_valid = new-IsValid c.global g;
  global_sized = refl;
  service_size = p;
  services = λ code r e. cc;
}

pub create-IsSound : (c : LogRingBufferConfig) (b : LogRingBuffer) → create c ≡ ok b → IsSound b
create-IsSound c b h = let (p, g, e) = create-eq-ok c b h in rw e (empty_buffer-IsSound c p g)

module _ (l : LogLine) (b : LogRingBuffer) (ok : IsSound b) where
  -- The service's buffer before the line, made when it is the first.
  abbrev held : Circular BufferedLogLine
  held = or_else (lookup l.service_code b.per_service) (new b.config.per_service)

  held-IsValid : IsValid held × (held.capacity ≡ b.config.per_service)
  unfolding new
  held-IsValid = elim (Option-cases (lookup l.service_code b.per_service)) [
    | inl e ↦ rw e (new-IsValid b.config.per_service ok.service_size, refl)
    | inr (c, e) ↦ rw e (ok.services l.service_code c e)
  ]

  newest_first-held : newest_first held ≡ service_lines l.service_code b
  unfolding service_lines
  newest_first-held = elim (Option-cases (lookup l.service_code b.per_service)) [
    | inl e ↦ rw e (newest_first-new b.config.per_service)
    | inr (c, e) ↦ rw e
  ]

  newest_first-push-held :
      (line : BufferedLogLine)
      → newest_first (push line held)
        ≡ take b.config.per_service (line ∷ service_lines l.service_code b)
  newest_first-push-held line =
      newest_first-push line held held-IsValid.0
      ∙ ap₂ (λ n lines. take n (line ∷ lines)) held-IsValid.1 newest_first-held

  pub append-IsSound : IsSound (append l b).0
  unfolding append
  append-IsSound = record {
    global_valid = push-IsValid _ b.global_lines ok.global_valid;
    global_sized = capacity-push _ b.global_lines ∙ ok.global_sized;
    service_size = ok.service_size;
    services = λ code c e. elim (Bool-cases (str_eq l.service_code code)) [
      | inl same ↦
          let found : some _ ≡ some c = rw (lookup-insert l.service_code code, same) at e in
          subst (λ d. IsValid d × (d.capacity ≡ b.config.per_service)) (some_injective found)
            (push-IsValid _ held held-IsValid.0, capacity-push _ held ∙ held-IsValid.1)
      | inr other ↦ ok.services code c (rw (lookup-insert l.service_code code, other) at e)
    ];
  }

  pub newest_first-append :
      newest_first (append l b).0.global_lines
      ≡ take b.config.global ((append l b).1 ∷ newest_first b.global_lines)
  unfolding append
  newest_first-append = rw (← ok.global_sized) (newest_first-push _ b.global_lines ok.global_valid)

  pub service_lines-append :
      (code : String)
      → service_lines code (append l b).0 ≡ (
          if str_eq l.service_code code
          then take b.config.per_service ((append l b).1 ∷ service_lines code b)
          else service_lines code b)
  unfolding append service_lines
  service_lines-append code =
      rw (lookup-insert l.service_code code) (elim (Bool-cases (str_eq l.service_code code)) [
        | inl same ↦ rw same (
            newest_first-push-held (buffered b.next_id l)
            ∙ ap
                (λ k.
                  take b.config.per_service
                    (buffered b.next_id l ∷ lines_of (lookup k b.per_service)))
                ((eq_iff _ _).0 same))
        | inr other ↦ rw other
      ])

module _ (c : LogRingBufferConfig) (b b' : LogRingBuffer) (set_up : configure c b ≡ ok b') where
  abbrev resized : LogRingBuffer
  resized = record b {
    config = c;
    global_lines = resize c.global b.global_lines;
    per_service = map_values (resize c.per_service) b.per_service;
  }

  configure-eq-ok : (0 < c.per_service) × (0 < c.global) × (b' ≡ resized)
  unfolding configure validate_config
  configure-eq-ok = ground (arith, set_up)

  resized-IsSound : 0 < c.per_service → 0 < c.global → IsSound resized
  resized-IsSound p g = record {
    global_valid = resize-IsValid c.global b.global_lines g;
    global_sized = capacity-resize c.global b.global_lines;
    service_size = p;
    services = λ code d e. elim (Option-cases (lookup code b.per_service)) [
      | inl old ↦ cc (lookup-map_values (resize c.per_service) code b.per_service, old)
      | inr (f, old) ↦
          let found : some (resize c.per_service f) ≡ some d =
            rw (lookup-map_values (resize c.per_service) code b.per_service, old) at e in
          subst (λ d. IsValid d × (d.capacity ≡ c.per_service)) (some_injective found)
            (resize-IsValid c.per_service f p, capacity-resize c.per_service f)
    ];
  }

  pub configure-IsSound : IsSound b'
  configure-IsSound = let (p, g, e) = configure-eq-ok in rw e (resized-IsSound p g)

  -- A new configuration keeps, of each list, the newest lines that fit.
  pub configure_lines :
      (newest_first b'.global_lines ≡ take c.global (newest_first b.global_lines))
      × ((code : String) → service_lines code b' ≡ take c.per_service (service_lines code b))
  unfolding service_lines
  configure_lines =
      let (p, g, e) = configure-eq-ok in
      rw e (
        newest_first-resize c.global b.global_lines g,
        λ code.
            rw (lookup-map_values (resize c.per_service) code b.per_service)
              (elim (Option-cases (lookup code b.per_service)) [
                | inl old ↦ rw old (sym (take-nil c.per_service))
                | inr (f, old) ↦ rw old (newest_first-resize c.per_service f p)
              ]),
      )
