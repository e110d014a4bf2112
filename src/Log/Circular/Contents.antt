-- ===== src/Log/Circular/Contents.antt =====
-- src/log/ring-buffer.ts: what a `CircularBuffer` holds, newest first.
use mathlib.Core.List.{reverse-cons, reverse-reverse, append_assoc, append-nil}
use native.Mathlib.Nat.{mod-lt}
use native.Mathlib.Numerals.{add-one}
use native.Mathlib.Decide.{dec_lt}
use excubitor.Prelude.{
  ℕ, suc, ◌+◌, ◌-◌, ◌%◌, ◌≤◌, ◌<◌, ◌≡◌, refl, sym, ap, ◌∙◌, ◌≢◌, List, [], ◌∷◌, ◌++◌, none, some,
  reverse, ltb, ltb→lt, length, set, take, arith, length-set, get_or-set_self, get_or-set_ne,
  take_of_length-le, take-append-take, take-take, length-replicate, inl, inr, Bool-cases,
}
use excubitor.Log.Circular.{Circular, new, push, slot, newest_first, push_all, resize}
use excubitor.Log.Circular.Slots.{
  mod_wrap, offset_ne, next_offset, collect-congr, collect-suc, length-collect-le, collect-push,
}

module _ {ℓ} {A : Type ℓ} where
  pub record IsValid (c : Circular A) : Type ℓ where
    pub positive : 0 < c.capacity
    pub sized : length c.entries ≡ c.capacity
    pub started : c.start < c.capacity
    pub bounded : c.count ≤ c.capacity
    pub filled : (k : ℕ) → k < c.count → (a : A) × (slot c k ≡ some a)

  module _ (v : A) (c : Circular A) (ok : IsValid c) where
    -- A push below the capacity writes the slot after the last one.
    abbrev appended : Circular A
    appended = record c {
      entries = set c.entries ((c.start + c.count) % c.capacity) (some v);
      count = c.count + 1;
    }

    slot-appended_old : (k : ℕ) → k < c.count → c.count < c.capacity → slot appended k ≡ slot c k
    slot-appended_old k h room =
        get_or-set_ne c.entries _ _ (some v) none
          (offset_ne c.start c.capacity c.count k ok.started room (omega arith) (omega arith))

    slot-appended_new : c.count < c.capacity → slot appended c.count ≡ some v
    slot-appended_new room =
        get_or-set_self c.entries _ (some v) none
          (omega (arith, ok.sized, mod-lt (c.start + c.count) ok.positive))

    appended-IsValid : c.count < c.capacity → IsValid appended
    appended-IsValid room = record {
      positive = ok.positive;
      sized = length-set c.entries _ (some v) ∙ ok.sized;
      started = ok.started;
      bounded = omega arith;
      filled = λ k h. elim (dec_lt k c.count) [
        | yes old ↦ rw (slot-appended_old k old room) (ok.filled k old)
        | no last ↦ let e : k ≡ c.count = omega arith in rw (e, slot-appended_new room) (v, refl)
      ];
    }

    newest_first-appended :
        c.count < c.capacity → newest_first appended ≡ take c.capacity (v ∷ newest_first c)
    unfolding newest_first
    newest_first-appended room = rw add-one (
        collect-suc (slot appended) c.count v (slot-appended_new room)
        ∙ ap (◌∷◌ v)
            (collect-congr (slot appended) (slot c) c.count (λ k h. slot-appended_old k h room))
        ∙ sym (take_of_length-le c.capacity _ (omega (arith, length-collect-le (slot c) c.count))))

    -- A push at the capacity overwrites the oldest slot.
    abbrev rotated : Circular A
    rotated = record c {
      entries = set c.entries c.start (some v);
      start = (c.start + 1) % c.capacity;
    }

    slot-rotated_old : (k : ℕ) → suc k < c.capacity → slot rotated k ≡ slot c (suc k)
    slot-rotated_old k h =
        let ne : c.start ≢ (c.start + suc k) % c.capacity =
          ground (arith, mod_wrap (c.start + suc k) c.capacity (omega (arith, ok.started))) in
        rw (next_offset c.start c.capacity k ok.started (omega arith))
          (get_or-set_ne c.entries c.start _ (some v) none ne)

    slot-rotated_new : (k : ℕ) → suc k ≡ c.capacity → slot rotated k ≡ some v
    slot-rotated_new k h =
        let index : (c.start + suc k) % c.capacity ≡ c.start =
          ground (arith, ok.started, mod_wrap (c.start + suc k) c.capacity (omega arith)) in
        rw (next_offset c.start c.capacity k ok.started (omega arith), index)
          (get_or-set_self c.entries c.start (some v) none (omega (arith, ok.sized, ok.started)))

    rotated-IsValid : c.count ≡ c.capacity → IsValid rotated
    rotated-IsValid full = record {
      positive = ok.positive;
      sized = length-set c.entries _ (some v) ∙ ok.sized;
      started = mod-lt (c.start + 1) ok.positive;
      bounded = ok.bounded;
      filled = λ k h. elim (dec_lt (suc k) c.capacity) [
        | yes old ↦ rw (slot-rotated_old k old) (ok.filled (suc k) (omega arith))
        | no last ↦ rw (slot-rotated_new k (omega arith)) (v, refl)
      ];
    }

    newest_first-rotated :
        c.count ≡ c.capacity → newest_first rotated ≡ take c.capacity (v ∷ newest_first c)
    unfolding newest_first
    newest_first-rotated full =
        collect-push (slot c) (slot rotated) (c.capacity - 1) c.count c.capacity v
          (omega (arith, ok.positive)) (omega (arith, ok.positive))
          (λ k h. ok.filled k (omega (arith, ok.positive)))
          (λ k h. slot-rotated_old k (omega arith))
          (slot-rotated_new (c.capacity - 1) (omega (arith, ok.positive)))

    pub push-IsValid : IsValid (push v c)
    unfolding push
    push-IsValid = elim (Bool-cases (ltb c.count c.capacity)) [
      | inl room ↦ rw room (appended-IsValid (ltb→lt _ _ room))
      | inr full ↦ rw full (rotated-IsValid (ground (arith, ok.bounded)))
    ]

    -- A push puts the value in front and drops what no longer fits.
    pub newest_first-push : newest_first (push v c) ≡ take c.capacity (v ∷ newest_first c)
    unfolding push
    newest_first-push = elim (Bool-cases (ltb c.count c.capacity)) [
      | inl room ↦ rw room (newest_first-appended (ltb→lt _ _ room))
      | inr full ↦ rw full (newest_first-rotated (ground (arith, ok.bounded)))
    ]

  pub capacity-push : (v : A) (c : Circular A) → (push v c).capacity ≡ c.capacity
  unfolding push
  capacity-push v c = ground arith

  pub length-newest_first-le : (c : Circular A) → IsValid c → length (newest_first c) ≤ c.capacity
  unfolding newest_first
  length-newest_first-le c ok = omega (arith, ok.bounded, length-collect-le (slot c) c.count)

  pub new-IsValid : (capacity : ℕ) → 0 < capacity → IsValid (new {A = A} capacity)
  unfolding new
  new-IsValid capacity h = record {
    positive = h;
    sized = length-replicate capacity none;
    started = h;
    bounded = omega arith;
    filled = λ k l. elim l [ ];
  }

  pub newest_first-new : (capacity : ℕ) → newest_first (new {A = A} capacity) ≡ []
  unfolding newest_first new
  newest_first-new capacity = refl

  pub push_all-IsValid : (vs : List A) (c : Circular A) → IsValid c → IsValid (push_all vs c)
  unfolding push_all
  push_all-IsValid [] c ok = ok
  push_all-IsValid (v ∷ vs) c ok = push_all-IsValid vs (push v c) (push-IsValid v c ok)

  pub capacity-push_all : (vs : List A) (c : Circular A) → (push_all vs c).capacity ≡ c.capacity
  unfolding push_all
  capacity-push_all [] c = refl
  capacity-push_all (v ∷ vs) c = capacity-push_all vs (push v c) ∙ capacity-push v c

  -- Any run of pushes keeps the newest values, up to the capacity.
  pub newest_first-push_all :
      (vs : List A) (c : Circular A)
      → IsValid c
      → newest_first (push_all vs c) ≡ take c.capacity (reverse vs ++ newest_first c)
  unfolding push_all
  newest_first-push_all [] c ok = sym (take_of_length-le c.capacity _ (length-newest_first-le c ok))
  newest_first-push_all (v ∷ vs) c ok =
      newest_first-push_all vs (push v c) (push-IsValid v c ok)
      ∙ rw (capacity-push v c, newest_first-push v c ok)
          (take-append-take c.capacity c.capacity (reverse vs) (v ∷ newest_first c) (omega arith)
            ∙ rw (reverse-cons v vs, append_assoc (reverse vs) (v ∷ [])))

  pub resize-IsValid : (n : ℕ) (c : Circular A) → 0 < n → IsValid (resize n c)
  unfolding resize
  resize-IsValid n c h =
      push_all-IsValid (reverse (take n (newest_first c))) (new n) (new-IsValid n h)

  pub capacity-resize : (n : ℕ) (c : Circular A) → (resize n c).capacity ≡ n
  unfolding resize new
  capacity-resize n c = capacity-push_all (reverse (take n (newest_first c))) (new n)

  -- A resize keeps the newest values that fit the new capacity.
  pub newest_first-resize :
      (n : ℕ) (c : Circular A) → 0 < n → newest_first (resize n c) ≡ take n (newest_first c)
  unfolding resize new
  newest_first-resize n c h =
      newest_first-push_all (reverse (take n (newest_first c))) (new n) (new-IsValid n h)
      ∙ rw
          (
            reverse-reverse (take n (newest_first c)),
            newest_first-new n,
            append-nil (take n (newest_first c)),
          )
          (take-take n (newest_first c))
