-- ===== src/Log/Circular/Slots.antt =====
-- src/log/ring-buffer.ts: the slots of a circular buffer: where an offset falls, and what a run of
-- slots collects.
use native.Mathlib.Nat.{mod-eq_of_lt, mod-eq-sub-mod, mod-add-mod}
use excubitor.Prelude.{
  ℕ, zero, suc, ◌+◌, ◌-◌, ◌%◌, ◌≤◌, ◌<◌, ◌≡◌, refl, ap, ◌∙◌, ◌≢◌, ◌∷◌, Option, some, ltb,
  if◌then◌else◌, ltb→lt, length, take, arith, inl, inr, Bool-cases,
}
use excubitor.Log.Circular.{collect}

-- The index of an offset wraps round at most once.
pub mod_wrap : (n c : ℕ) → n < c + c → n % c ≡ (if ltb n c then n else n - c)
mod_wrap n c h = elim (Bool-cases (ltb n c)) [
  | inl low ↦ rw low (mod-eq_of_lt (ltb→lt n c low))
  | inr high ↦
      let le : c ≤ n = ground arith in rw (high, mod-eq-sub-mod le) (mod-eq_of_lt (omega arith))
]

pub offset_ne : (s c j k : ℕ) → s < c → j < c → k < c → j ≢ k → (s + j) % c ≢ (s + k) % c
offset_ne s c j k hs hj hk ne =
    ground (arith, mod_wrap (s + j) c (omega arith), mod_wrap (s + k) c (omega arith))

pub next_offset : (s c k : ℕ) → s < c → k < c → ((s + 1) % c + k) % c ≡ (s + suc k) % c
next_offset s c k h l = rw (mod-add-mod (s + 1) c k) (ap (λ n. n % c) (omega arith))

module _ {ℓ} {A : Type ℓ} where
  pub collect-congr :
      (f g : ℕ → Option A) (n : ℕ) → ((k : ℕ) → k < n → f k ≡ g k) → collect f n ≡ collect g n
  unfolding collect
  collect-congr f g zero h = refl
  collect-congr f g (suc n) h =
      ground (arith, h n (omega arith), collect-congr f g n (λ k l. h k (omega arith)))

  pub collect-suc :
      (f : ℕ → Option A) (n : ℕ) (v : A) → f n ≡ some v → collect f (suc n) ≡ v ∷ collect f n
  unfolding collect
  collect-suc f n v e = rw (e, collect)

  pub length-collect-le : (f : ℕ → Option A) (n : ℕ) → length (collect f n) ≤ n
  unfolding collect
  length-collect-le f zero = omega arith
  length-collect-le f (suc n) = ground (arith, length-collect-le f n)

  collect-shift :
      (f : ℕ → Option A) (n : ℕ)
      → ((k : ℕ) → k < suc n → (a : A) × (f k ≡ some a))
      → collect (λ k. f (suc k)) n ≡ take n (collect f (suc n))
  unfolding collect
  collect-shift f zero h = refl
  collect-shift f (suc n) h =
      let (v, e) = h (suc n) (omega arith) in
      rw (collect-suc f (suc n) v e, collect-suc (λ k. f (suc k)) n v e)
        (ap (◌∷◌ v) (collect-shift f n (λ k l. h k (omega arith))))

  pub collect-push :
      (f g : ℕ → Option A) (n count capacity : ℕ) (v : A)
      → count ≡ suc n
      → capacity ≡ suc n
      → ((k : ℕ) → k < suc n → (a : A) × (f k ≡ some a))
      → ((k : ℕ) → k < n → g k ≡ f (suc k))
      → g n ≡ some v
      → collect g count ≡ take capacity (v ∷ collect f count)
  collect-push f g n count capacity v e e' h same last =
      rw (e, e')
        (collect-suc g n v last
          ∙ ap (◌∷◌ v) (collect-congr g (λ k. f (suc k)) n same ∙ collect-shift f n h))
