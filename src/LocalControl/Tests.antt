-- ===== src/LocalControl/Tests.antt =====
-- Framing of small texts, and the theorems at inputs that meet their hypotheses.
use excubitor.Prelude.{ℕ, ◌≡◌, refl, List, [], ◌∷◌, ◌++◌, some, arith}
use excubitor.LocalControl.LineFramer.{
  push, lines_of, line_too_long, frame_loop, split_newline, strip_return, byte_length,
  check_pending, local_control_max_line_bytes,
}
use excubitor.LocalControl.LineFramer.Stream.{outcome}
use excubitor.LocalControl.LineFramer.Chunks.{then_push, push-append}
use excubitor.LocalControl.LineFramer.Lines.{encode, push-encode}
use excubitor.Prelude.{true, false}
use excubitor.LocalControl.AdoptedProcessReaper.{Service, RestartPolicy, Round, Reaper, restartable}
use excubitor.Prelude.Maps.{lookup}
use excubitor.LocalControl.AdoptedProcessReaper.Candidates.{starts_of}
use excubitor.LocalControl.AdoptedProcessReaper.Bound.{run_all, run_all-starts_of}

-- "{}\r\n[" and "]\n"
abbrev first : List ℕ
first = 123 ∷ 125 ∷ 13 ∷ 10 ∷ 91 ∷ []

abbrev second : List ℕ
second = 93 ∷ 10 ∷ []

push_run : push 8 [] first ≡ lines_of ((123 ∷ 125 ∷ []) ∷ []) (91 ∷ [])
unfolding push frame_loop split_newline strip_return byte_length check_pending
push_run = refl

-- A surrogate pair is four bytes.
push_run_pair : push 3 (55357 ∷ []) (56832 ∷ []) ≡ line_too_long (55357 ∷ 56832 ∷ [])
unfolding push frame_loop split_newline strip_return byte_length check_pending
push_run_pair = refl

push-append_example :
    outcome (push local_control_max_line_bytes [] (first ++ second))
    ≡ then_push local_control_max_line_bytes second
        (outcome (push local_control_max_line_bytes [] first))
unfolding split_newline
push-append_example = push-append local_control_max_line_bytes [] first second refl

push-encode_example :
    outcome (push 8 [] (encode ((123 ∷ 125 ∷ []) ∷ (91 ∷ 93 ∷ []) ∷ [])))
    ≡ some ((123 ∷ 125 ∷ []) ∷ (91 ∷ 93 ∷ []) ∷ [], [])
unfolding split_newline strip_return byte_length
push-encode_example = push-encode 8 ((123 ∷ 125 ∷ []) ∷ (91 ∷ 93 ∷ []) ∷ []) (
  (refl, refl, (λ e. ground arith), omega arith),
  ((refl, refl, (λ e. ground arith), omega arith), tt),
)

abbrev worker : Service
worker = record { disabled = false; restart_policy = RestartPolicy.always; max_restart = 2 }

abbrev round : Round
round = record {
  refresh_throws = false;
  list_adopted = "api" ∷ "worker" ∷ [];
  is_adopted = λ code. true;
  should_recover = λ code. true;
  validate_managed = λ code. some false;
  service = λ code. some worker;
  control_throws = λ code. false;
}

abbrev idle : Reaper
idle = record { retry_counts = []; started = []; errors = [] }

run_all-starts_of_example :
    starts_of "worker" (run_all (round ∷ round ∷ round ∷ []) idle).started ≡ 2
unfolding restartable lookup
run_all-starts_of_example = run_all-starts_of "worker" 2 (round ∷ round ∷ round ∷ []) idle (
  (refl, refl, refl, refl, refl, refl),
  ((refl, refl, refl, refl, refl, refl), ((refl, refl, refl, refl, refl, refl), tt)),
)
