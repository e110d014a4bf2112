-- ===== src/Prelude/Comparing.antt =====
-- `Array.prototype.sort` with a comparison, as a test for "not after": a stable sort, by insertion.
use mathlib.Core.Path.{◌≡◌}
use mathlib.Core.Logic.{inl, inr}
use mathlib.Core.Bool.{Bool, true}
use mathlib.Core.List.{List, [], ◌∷◌}
use excubitor.Prelude.Tests.{if◌then◌else◌, Bool-cases}
use excubitor.Prelude.Lists.{filter}

module _ {ℓ} {A : Type ℓ} (not_after : A → A → Bool) where
  unfoldable pub insert_with : A → List A → List A
  insert_with x [] = x ∷ []
  insert_with x (y ∷ ys) =
      let rest = insert_with x ys in if not_after x y then x ∷ y ∷ ys else y ∷ rest

  unfoldable pub sort_with : List A → List A
  unfolding insert_with
  sort_with [] = []
  sort_with (x ∷ xs) = insert_with x (sort_with xs)

module _ {ℓ} {A : Type ℓ} where
  pub data Member : A → List A → Type ℓ where
    here : (x : A) (xs : List A) → Member x (x ∷ xs)
    there : (a x : A) (xs : List A) → Member a xs → Member a (x ∷ xs)

  pub Member-filter :
      (p : A → Bool) (a : A) (xs : List A) → p a ≡ true → Member a xs → Member a (filter p xs)
  Member-filter p a xs h (here x ys) = rw h (here x (filter p ys))
  Member-filter p a xs h (there b x ys m) = elim (Bool-cases (p x)) [
    | inl kept ↦ rw kept (there b x (filter p ys) (Member-filter p b ys h m))
    | inr dropped ↦ rw dropped (Member-filter p b ys h m)
  ]

module _ {ℓ} {A : Type ℓ} (not_after : A → A → Bool) where
  Member-insert_with_head : (x : A) (xs : List A) → Member x (insert_with not_after x xs)
  unfolding insert_with
  Member-insert_with_head x [] = here x []
  Member-insert_with_head x (y ∷ ys) = elim (Bool-cases (not_after x y)) [
    | inl first ↦ rw first (here x (y ∷ ys))
    | inr later ↦ rw later (there x y (insert_with not_after x ys) (Member-insert_with_head x ys))
  ]

  Member-insert_with : (x a : A) (xs : List A) → Member a xs → Member a (insert_with not_after x xs)
  unfolding insert_with
  Member-insert_with x a xs (here y ys) = elim (Bool-cases (not_after x y)) [
    | inl first ↦ rw first (there y x (y ∷ ys) (here y ys))
    | inr later ↦ rw later (here y (insert_with not_after x ys))
  ]
  Member-insert_with x a xs (there b y ys m) = elim (Bool-cases (not_after x y)) [
    | inl first ↦ rw first (there b x (y ∷ ys) (there b y ys m))
    | inr later ↦ rw later (there b y (insert_with not_after x ys) (Member-insert_with x b ys m))
  ]

  pub Member-sort_with : (a : A) (xs : List A) → Member a xs → Member a (sort_with not_after xs)
  unfolding sort_with
  Member-sort_with a xs (here x ys) = Member-insert_with_head x (sort_with not_after ys)
  Member-sort_with a xs (there b x ys m) =
      Member-insert_with x b (sort_with not_after ys) (Member-sort_with b ys m)
