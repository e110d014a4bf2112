-- ===== src/LocalControl/AdoptedProcessReaper.antt =====
-- src/local-control/adopted-process-reaper.ts: `AdoptedProcessReaper.runOnce`. The candidates run
-- side by side in the queues of their services; here they are taken in the order of the set. What
-- the process manager answers in a round is the record `Round`. A `throw` of `validateManaged` or
-- `control` ends the handling of its candidate.
pub mod Candidates
pub mod Bound
use excubitor.Prelude.{
  ℕ, ◌+◌, String, List, [], ◌∷◌, ◌++◌, map, Option, none, some, Bool, true, false, not, ◌&&◌, ◌||◌,
  ltb, leb, if◌then◌else◌,
}
use excubitor.Prelude.Maps.{lookup, insert, remove}
use excubitor.Prelude.Sets.{has}

pub data RestartPolicy : Type 0 where
  never : RestartPolicy  -- 'no'
  on_failure : RestartPolicy
  always : RestartPolicy

-- What the reaper reads of a catalog entry; `max_restart` after `Math.trunc` and the bound by 0.
pub record Service : Type 0 where
  pub disabled : Bool
  pub restart_policy : RestartPolicy
  pub max_restart : ℕ

-- Whether `refreshCatalog` throws, the answers of `listAdopted`, `isAdopted`, `shouldRecover`, `validateManaged` (`none` for a
-- throw), `service`, and whether `control` throws.
pub record Round : Type 0 where
  pub refresh_throws : Bool
  pub list_adopted : List String
  pub is_adopted : String → Bool
  pub should_recover : String → Bool
  pub validate_managed : String → Option Bool
  pub service : String → Option Service
  pub control_throws : String → Bool

-- The counts, the services started and the services reported to `onError`, in order.
pub record Reaper : Type 0 where
  pub retry_counts : List (String × ℕ)
  pub started : List String
  pub errors : List String

-- `!service || service.disabled || service.restart_policy === 'no'`, else its bound
unfoldable pub restartable : Option Service → Option ℕ
restartable none = none
restartable (some s) = if s.disabled then none else elim s.restart_policy [
  | never ↦ none
  | on_failure ↦ some s.max_restart
  | always ↦ some s.max_restart
]

abbrev pub count_or_zero : Option ℕ → ℕ
count_or_zero none = 0
count_or_zero (some n) = n

unfoldable pub forget : String → Reaper → Reaper
forget code r = record r { retry_counts = remove code r.retry_counts }

-- The end of `reap`: below the bound, count the attempt and start the service.
unfoldable pub restart : Bool → String → ℕ → Reaper → Reaper
restart throws code maximum r =
    let attempts = count_or_zero (lookup code r.retry_counts) in
    if leb maximum attempts then r else record r {
      retry_counts = insert code (attempts + 1) r.retry_counts;
      started = r.started ++ code ∷ [];
      errors = if throws then r.errors ++ code ∷ [] else r.errors;
    }

-- `reap` after `validateManaged`.
unfoldable pub reap_with : Option Bool → Option ℕ → Bool → String → Reaper → Reaper
reap_with none maximum throws code r = record r { errors = r.errors ++ code ∷ [] }
reap_with (some true) maximum throws code r = forget code r
reap_with (some false) none throws code r = forget code r
reap_with (some false) (some maximum) throws code r = restart throws code maximum r

unfoldable pub reap : Round → String → Reaper → Reaper
reap round code r =
    reap_with (round.validate_managed code) (restartable (round.service code))
      (round.control_throws code) code r

-- The operation of one candidate; `retrying` are the candidates from the counts.
unfoldable pub handle : Round → List String → String → Reaper → Reaper
handle round retrying code r =
    let reaped = reap round code r in
    if not (has retrying code) && not (round.is_adopted code)
    then r
    else if not (round.should_recover code)
    then forget code r
    else reaped

unfoldable pub handle_each : Round → List String → List String → Reaper → Reaper
handle_each round retrying [] r = r
handle_each round retrying (code ∷ codes) r =
    handle_each round retrying codes (handle round retrying code r)

-- `new Set([...xs])`: what comes first stays.
unfoldable pub to_set : List String → List String → List String
to_set set [] = set
to_set set (x ∷ xs) = to_set (if has set x then set else set ++ x ∷ []) xs

unfoldable pub keys : List (String × ℕ) → List String
keys [] = []
keys ((code, n) ∷ counts) = code ∷ keys counts

-- A throw of `refreshCatalog` ends the round before any candidate; it is reported without a code.
unfoldable pub run_once : Round → Reaper → Reaper
run_once round r =
    let retrying = keys r.retry_counts in
    let handled = handle_each round retrying (to_set [] (round.list_adopted ++ retrying)) r in
    if round.refresh_throws then r else handled
