-- ===== src/Log/Circular.antt =====
-- src/log/ring-buffer.ts: the class `CircularBuffer`. An empty slot (`undefined`) is `none`.
mod Slots
pub mod Contents
use excubitor.Prelude.{
  ℕ, zero, suc, ◌+◌, ◌%◌, List, [], ◌∷◌, Option, none, some, reverse, ltb, if◌then◌else◌, get_or,
  set, take, replicate,
}

pub record Circular {ℓ} (A : Type ℓ) : Type ℓ where
  pub capacity : ℕ
  pub entries : List (Option A)
  pub start : ℕ
  pub count : ℕ

module _ {ℓ} {A : Type ℓ} where
  unfoldable pub new : ℕ → Circular A
  new capacity = record {
    capacity = capacity;
    entries = replicate capacity none;
    start = 0;
    count = 0;
  }

  unfoldable pub push : A → Circular A → Circular A
  push value c =
      if ltb c.count c.capacity
      then record c {
        entries = set c.entries ((c.start + c.count) % c.capacity) (some value);
        count = c.count + 1;
      }
      else record c {
        entries = set c.entries c.start (some value);
        start = (c.start + 1) % c.capacity;
      }

  -- The loop of `newestFirst`, over a slot's content by its offset: `offset` rounds are left.
  unfoldable pub collect : (ℕ → Option A) → ℕ → List A
  collect slot zero = []
  collect slot (suc offset) = elim (slot offset) [
    | none ↦ collect slot offset
    | some v ↦ v ∷ collect slot offset
  ]

  abbrev pub slot : Circular A → ℕ → Option A
  slot c offset = get_or c.entries ((c.start + offset) % c.capacity) none

  unfoldable pub newest_first : Circular A → List A
  unfolding collect
  newest_first c = collect (slot c) c.count

  -- `for (const value of kept) this.push(value)`
  unfoldable pub push_all : List A → Circular A → Circular A
  unfolding push
  push_all [] c = c
  push_all (v ∷ vs) c = push_all vs (push v c)

  unfoldable pub resize : ℕ → Circular A → Circular A
  unfolding newest_first new push_all
  resize capacity c = push_all (reverse (take capacity (newest_first c))) (new capacity)
