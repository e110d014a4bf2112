-- ===== src/Shared/MapLimit.antt =====
-- src/shared/map-limit.ts: `mapWithLimit`. A worker runs without a break from one `await` to the next;
-- between two such runs any of the awaited calls of `fn` may settle. `fn` gives `none` where it throws.
mod Indices
mod Steps
pub mod Results
use excubitor.Prelude.{
  ℕ, zero, suc, ◌+◌, ◌≡◌, List, [], ◌∷◌, ◌++◌, Option, none, some, Bool, true, false, ◌||◌, ltb,
  if◌then◌else◌, length, get_elem?, set, replicate, min,
}

-- The index of the next item, the indices of the awaited calls, the results, and whether a call has
-- thrown; beside them all indices that `fn` was called with, and how many calls have settled.
pub record Pool {ℓ} (R : Type ℓ) : Type ℓ where
  pub next : ℕ
  pub active : List ℕ
  pub results : List (Option R)
  pub failed : Bool
  pub called : List ℕ
  pub settled : ℕ

-- The indices from one on.
unfoldable pub indices : ℕ → ℕ → List ℕ
indices from zero = []
indices from (suc count) = from ∷ indices (from + 1) count

module _ {ℓ κ} {A : Type ℓ} {R : Type κ} (fn : A → ℕ → Option R) (items : List A) where
  -- `fn(items[index]!, index)`
  abbrev pub call_item : Option A → ℕ → Option R
  call_item none index = none
  call_item (some item) index = fn item index

  abbrev pub call : ℕ → Option R
  call index = call_item (get_elem? items index) index

  -- The loop of `worker` up to its `await`, or its end.
  unfoldable pub work : Pool R → Pool R
  work p =
      if ltb p.next (length items)
      then record p {
        next = p.next + 1;
        active = p.active ++ p.next ∷ [];
        called = p.called ++ p.next ∷ [];
      }
      else p

  -- The workers start one after the other.
  unfoldable pub start_workers : ℕ → Pool R → Pool R
  unfolding work
  start_workers zero p = p
  start_workers (suc workers) p = start_workers workers (work p)

  unfoldable pub start : ℕ → Pool R
  unfolding start_workers
  start limit = start_workers (min limit (length items)) (record {
    next = 0;
    active = [];
    results = replicate (length items) none;
    failed = false;
    called = [];
    settled = 0;
  })

  -- `mapWithLimit` up to where all workers await; it throws for a limit that is no positive integer.
  unfoldable pub map_with_limit : ℕ → Option (Pool R)
  unfolding start
  map_with_limit limit = if ltb 0 limit then some (start limit) else none

  -- The result is stored and the worker goes on, or the error ends it.
  unfoldable pub store : ℕ → Option R → Pool R → Pool R
  unfolding work
  store index none p = record p { failed = true; settled = p.settled + 1 }
  store index (some r) p =
      work (record p { results = set p.results index (some r); settled = p.settled + 1 })

  -- The call with this index, among the awaited ones, settles.
  unfoldable pub settle : List ℕ → ℕ → List ℕ → Pool R → Pool R
  unfolding store
  settle front index back p = store index (call index) (record p { active = front ++ back })

  pub data Reachable (limit : ℕ) : Pool R → Type (ℓ ⊔ κ) where
    begins : (p : Pool R) → map_with_limit limit ≡ some p → Reachable limit p
    settles :
        (front : List ℕ) (index : ℕ) (back : List ℕ) (p : Pool R)
        → Reachable limit p
        → p.active ≡ front ++ index ∷ back
        → Reachable limit (settle front index back p)
