-- ===== src/LocalControl/AdoptedProcessReaper/Candidates.antt =====
-- src/local-control/adopted-process-reaper.ts: a round, seen from one service.
use excubitor.Prelude.{
  ℕ, suc, ◌+◌, ◌≡◌, refl, ap, ◌∙◌, subst, String, str_eq, eq_iff, List, [], ◌∷◌, ◌++◌, Option, none,
  some, Bool, true, false, not, ◌&&◌, ◌||◌, leb, if◌then◌else◌, length, filter, filter-append,
  length-append, arith, inl, inr, Bool-cases,
}
use excubitor.Prelude.Maps.{lookup, lookup-insert, lookup-remove}
use excubitor.Prelude.Sets.{has, has-append, IsDistinct, snoc-IsDistinct}
use excubitor.LocalControl.AdoptedProcessReaper.{
  Round, Reaper, restartable, count_or_zero, forget, restart, reap_with, reap, handle, handle_each,
  to_set, keys, run_once,
}

-- How often a service was started.
abbrev pub starts_of : String → List String → ℕ
starts_of c started = length (filter (λ code. str_eq code c) started)

-- A service's count, and how often it was started.
abbrev pub view : String → Reaper → Option ℕ × ℕ
view c r = (lookup c r.retry_counts, starts_of c r.started)

starts_of-snoc :
    (c code : String) (started : List String)
    → starts_of c (started ++ code ∷ [])
      ≡ (if str_eq code c then suc (starts_of c started) else starts_of c started)
starts_of-snoc c code started =
    ap length (filter-append (λ k. str_eq k c) started (code ∷ []))
    ∙ length-append (filter (λ k. str_eq k c) started) (filter (λ k. str_eq k c) (code ∷ []))
    ∙ ground arith

abbrev pub is_some : Option ℕ → Bool
is_some none = false
is_some (some n) = true

has-keys :
    (c : String) (counts : List (String × ℕ)) → has (keys counts) c ≡ is_some (lookup c counts)
unfolding keys lookup
has-keys c [] = refl
has-keys c ((j, n) ∷ counts) = ground (arith, has-keys c counts)

to_set-IsDistinct : (set xs : List String) → IsDistinct set → IsDistinct (to_set set xs)
unfolding to_set
to_set-IsDistinct set [] d = d
to_set-IsDistinct set (x ∷ xs) d = elim (Bool-cases (has set x)) [
  | inl old ↦ rw old (to_set-IsDistinct set xs d)
  | inr new ↦ rw new (to_set-IsDistinct (set ++ x ∷ []) xs (snoc-IsDistinct set x d new))
]

has-to_set : (c : String) (set xs : List String) → has (to_set set xs) c ≡ has set c || has xs c
unfolding to_set
has-to_set c set [] = ground arith
has-to_set c set (x ∷ xs) = elim (Bool-cases (has set x)) [
  | inl old ↦ rw old (has-to_set c set xs ∙ ground (arith, old, eq_iff x c))
  | inr new ↦ rw new (has-to_set c (set ++ x ∷ []) xs ∙ ground (arith, has-append set (x ∷ []) c))
]

-- The attempt, when the service is not validated.
abbrev attempt_view : Option ℕ → Option ℕ × ℕ → Option ℕ × ℕ
attempt_view none (n, k) = (none, k)
attempt_view (some m) (n, k) =
    if leb m (count_or_zero n) then (n, k) else (some (count_or_zero n + 1), suc k)

abbrev reap_view : Option Bool → Option ℕ → Option ℕ × ℕ → Option ℕ × ℕ
reap_view none maximum v = v
reap_view (some true) maximum v = (none, v.1)
reap_view (some false) maximum v = attempt_view maximum v

-- The round of one candidate.
abbrev handle_view : Round → String → Bool → Option ℕ × ℕ → Option ℕ × ℕ
handle_view round c retrying v =
    let reaped = reap_view (round.validate_managed c) (restartable (round.service c)) v in
    if not retrying && not (round.is_adopted c)
    then v
    else if not (round.should_recover c)
    then (none, v.1)
    else reaped

forget_mine : (c : String) (r : Reaper) → view c (forget c r) ≡ (none, (view c r).1)
unfolding forget
forget_mine c r = ground (arith, lookup-remove c c r.retry_counts, eq_iff c c)

restart_mine :
    (throws : Bool) (c : String) (m : ℕ) (r : Reaper)
    → view c (restart throws c m r) ≡ attempt_view (some m) (view c r)
unfolding restart
restart_mine throws c m r = ground (
  arith,
  lookup-insert c c (count_or_zero (lookup c r.retry_counts) + 1) r.retry_counts,
  starts_of-snoc c c r.started,
  eq_iff c c,
)

reap_with_mine :
    (valid : Option Bool) (maximum : Option ℕ) (throws : Bool) (c : String) (r : Reaper)
    → view c (reap_with valid maximum throws c r) ≡ reap_view valid maximum (view c r)
unfolding reap_with
reap_with_mine none maximum throws c r = refl
reap_with_mine (some true) maximum throws c r = forget_mine c r
reap_with_mine (some false) none throws c r = forget_mine c r
reap_with_mine (some false) (some m) throws c r = restart_mine throws c m r

forget_other :
    (c code : String) (r : Reaper) → str_eq code c ≡ false → view c (forget code r) ≡ view c r
unfolding forget
forget_other c code r h = ground (arith, lookup-remove code c r.retry_counts)

restart_other :
    (throws : Bool) (c code : String) (m : ℕ) (r : Reaper)
    → str_eq code c ≡ false
    → view c (restart throws code m r) ≡ view c r
unfolding restart
restart_other throws c code m r h = ground (
  arith,
  lookup-insert code c (count_or_zero (lookup code r.retry_counts) + 1) r.retry_counts,
  starts_of-snoc c code r.started,
)

reap_with_other :
    (valid : Option Bool) (maximum : Option ℕ) (throws : Bool) (c code : String) (r : Reaper)
    → str_eq code c ≡ false
    → view c (reap_with valid maximum throws code r) ≡ view c r
unfolding reap_with
reap_with_other none maximum throws c code r h = refl
reap_with_other (some true) maximum throws c code r h = forget_other c code r h
reap_with_other (some false) none throws c code r h = forget_other c code r h
reap_with_other (some false) (some m) throws c code r h = restart_other throws c code m r h

module _ (round : Round) (retrying : List String) where
  handle_mine :
      (c : String) (r : Reaper)
      → view c (handle round retrying c r) ≡ handle_view round c (has retrying c) (view c r)
  unfolding handle reap
  handle_mine c r = ground (
    arith,
    forget_mine c r,
    reap_with_mine (round.validate_managed c) (restartable (round.service c))
        (round.control_throws c) c r,
  )

  handle_other :
      (c code : String) (r : Reaper)
      → str_eq code c ≡ false
      → view c (handle round retrying code r) ≡ view c r
  unfolding handle reap
  handle_other c code r h = ground (
    arith,
    forget_other c code r h,
    reap_with_other (round.validate_managed code) (restartable (round.service code))
        (round.control_throws code) c code r h,
  )

  handle_each_absent :
      (c : String) (codes : List String) (r : Reaper)
      → has codes c ≡ false
      → view c (handle_each round retrying codes r) ≡ view c r
  unfolding handle_each
  handle_each_absent c [] r h = refl
  handle_each_absent c (code ∷ codes) r h =
      handle_each_absent c codes (handle round retrying code r) (ground arith)
      ∙ handle_other c code r (ground arith)

  handle_each_lem :
      (c : String) (codes : List String) (r : Reaper)
      → IsDistinct codes
      → view c (handle_each round retrying codes r)
        ≡ (if has codes c then handle_view round c (has retrying c) (view c r) else view c r)
  unfolding handle_each
  handle_each_lem c [] r d = refl
  handle_each_lem c (code ∷ codes) r (new, d) = elim (Bool-cases (str_eq code c)) [
    | inl here ↦
        let e : code ≡ c = (eq_iff code c).0 here in
        let gone : has codes c ≡ false = subst (λ k. has codes k ≡ false) e new in
        let step : view c (handle round retrying code r)
            ≡ handle_view round c (has retrying c) (view c r) =
          ap (λ k. view c (handle round retrying k r)) e ∙ handle_mine c r in
        rw here (handle_each_absent c codes (handle round retrying code r) gone ∙ step)
    | inr there ↦
        let other = handle_other c code r there in
        let next = handle_each_lem c codes (handle round retrying code r) d in
        rw there
          (next ∙ ap (λ v. if has codes c then handle_view round c (has retrying c) v else v) other)
  ]

-- A round in which the catalog is refreshed does to a service's count and starts what `handle_view`
-- says, if it is listed or counted, and else nothing.
pub run_once-view :
    (round : Round) (c : String) (r : Reaper)
    → round.refresh_throws ≡ false
    → view c (run_once round r) ≡ (
        if has round.list_adopted c || is_some (view c r).0
        then handle_view round c (is_some (view c r).0) (view c r)
        else view c r)
unfolding run_once
run_once-view round c r refreshed =
    let retrying = keys r.retry_counts in
    let codes = to_set [] (round.list_adopted ++ retrying) in
    let listed : has codes c ≡ has round.list_adopted c || is_some (lookup c r.retry_counts) =
      has-to_set c [] (round.list_adopted ++ retrying)
      ∙ has-append round.list_adopted retrying c
      ∙ ap (λ b. has round.list_adopted c || b) (has-keys c r.retry_counts) in
    ap (λ b. view c (if b then r else handle_each round retrying codes r)) refreshed
    ∙ handle_each_lem round retrying c codes r
        (to_set-IsDistinct [] (round.list_adopted ++ retrying) tt)
    ∙ ap (λ b. if b then handle_view round c (has retrying c) (view c r) else view c r) listed
    ∙ ap
        (λ b.
          if has round.list_adopted c || is_some (lookup c r.retry_counts)
          then handle_view round c b (view c r)
          else view c r)
        (has-keys c r.retry_counts)
