-- ===== src/Prelude/Sorting.antt =====
-- `Array.prototype.sort` with a numeric key: a stable sort, here by insertion.
use Prim.Native.Nat.{ℕ, ◌≤◌}
use mathlib.Core.Logic.{inl, inr}
use mathlib.Core.Path.{◌≡◌, refl, ap, ◌∙◌}
use mathlib.Core.List.{List, [], ◌∷◌, ◌++◌, Perm}
use mathlib.Core.List.Perm
use native.Mathlib.Omega.{arith}
use mathlib.Core.Bool.{Bool}
use excubitor.Prelude.Tests.{leb, if◌then◌else◌, Bool-cases, leb→le}
use excubitor.Prelude.Lists.{All, All-mono, filter}

module _ {ℓ κ} {A : Type ℓ} (P : A → Type κ) where
  All-skip : (xs : List A) (y : A) (ys : List A) → All P (xs ++ y ∷ ys) → All P (xs ++ ys)
  All-skip [] y ys a = a.1
  All-skip (x ∷ xs) y ys a = (a.0, All-skip xs y ys a.1)

  All-middle : (xs : List A) (y : A) (ys : List A) → All P (xs ++ y ∷ ys) → P y
  All-middle [] y ys a = a.0
  All-middle (x ∷ xs) y ys a = All-middle xs y ys a.1

  All-left : (xs ys : List A) → All P (xs ++ ys) → All P xs
  All-left [] ys a = tt
  All-left (x ∷ xs) ys a = (a.0, All-left xs ys a.1)

module _ {ℓ} {A : Type ℓ} (key : A → ℕ) where
  -- Before the first element whose key is as great.
  unfoldable pub insert_by : A → List A → List A
  insert_by x [] = x ∷ []
  insert_by x (y ∷ ys) = if leb (key x) (key y) then x ∷ y ∷ ys else y ∷ insert_by x ys

  unfoldable pub sort_by : List A → List A
  unfolding insert_by
  sort_by [] = []
  sort_by (x ∷ xs) = insert_by x (sort_by xs)

  abbrev pub IsSorted : List A → Type 0
  IsSorted [] = Unit {0}
  IsSorted (x ∷ xs) = All (λ y. key x ≤ key y) xs × IsSorted xs

  insert_by-perm : (x : A) (ys : List A) → Perm (insert_by x ys) (x ∷ ys)
  unfolding insert_by
  insert_by-perm x [] = Perm.refl (x ∷ [])
  insert_by-perm x (y ∷ ys) = elim (Bool-cases (leb (key x) (key y))) [
    | inl first ↦ rw first (Perm.refl (x ∷ y ∷ ys))
    | inr later ↦ rw later (Perm.trans (Perm.cons y (insert_by-perm x ys)) (Perm.swap x y ys))
  ]

  pub sort_by-perm : (xs : List A) → Perm (sort_by xs) xs
  unfolding sort_by
  sort_by-perm [] = Perm.refl []
  sort_by-perm (x ∷ xs) = Perm.trans (insert_by-perm x (sort_by xs)) (Perm.cons x (sort_by-perm xs))

  pub All-insert_by {κ} :
      (P : A → Type κ) (x : A) (ys : List A) → P x → All P ys → All P (insert_by x ys)
  unfolding insert_by
  All-insert_by P x [] p a = (p, tt)
  All-insert_by P x (y ∷ ys) p a = ground (arith, All-insert_by P x ys p a.1)

  pub All-sort_by {κ} : (P : A → Type κ) (xs : List A) → All P xs → All P (sort_by xs)
  unfolding sort_by
  All-sort_by P [] a = tt
  All-sort_by P (x ∷ xs) a = All-insert_by P x (sort_by xs) a.0 (All-sort_by P xs a.1)

  insert_by-IsSorted : (x : A) (ys : List A) → IsSorted ys → IsSorted (insert_by x ys)
  unfolding insert_by
  insert_by-IsSorted x [] s = (tt, tt)
  insert_by-IsSorted x (y ∷ ys) s = elim (Bool-cases (leb (key x) (key y))) [
    | inl first ↦
        let le : key x ≤ key y = leb→le _ _ first in
        rw first ((le, All-mono (λ z h. omega arith) ys s.0), s)
    | inr later ↦
        let le : key y ≤ key x = ground (arith, later) in
        rw later (All-insert_by (λ z. key y ≤ key z) x ys le s.0, insert_by-IsSorted x ys s.1)
  ]

  pub sort_by-IsSorted : (xs : List A) → IsSorted (sort_by xs)
  unfolding sort_by
  sort_by-IsSorted [] = tt
  sort_by-IsSorted (x ∷ xs) = insert_by-IsSorted x (sort_by xs) (sort_by-IsSorted xs)

  -- Sorting changes nothing that is sorted.
  pub sort_by_of_IsSorted : (xs : List A) → IsSorted xs → sort_by xs ≡ xs
  unfolding sort_by insert_by
  sort_by_of_IsSorted [] s = refl
  sort_by_of_IsSorted (x ∷ []) s = refl
  sort_by_of_IsSorted (x ∷ y ∷ ys) s =
      ap (insert_by x) (sort_by_of_IsSorted (y ∷ ys) s.1) ∙ ground (arith, s.0.0)

  pub All-filter {κ} :
      (P : A → Type κ) (p : A → Bool) (xs : List A) → All P xs → All P (filter p xs)
  All-filter P p [] a = tt
  All-filter P p (x ∷ xs) a = ground (arith, All-filter P p xs a.1)

  pub filter-IsSorted : (p : A → Bool) (xs : List A) → IsSorted xs → IsSorted (filter p xs)
  filter-IsSorted p [] s = tt
  filter-IsSorted p (x ∷ xs) s =
      ground (arith, filter-IsSorted p xs s.1, All-filter (λ y. key x ≤ key y) p xs s.0)

  pub IsSorted-skip :
      (xs : List A) (y : A) (ys : List A) → IsSorted (xs ++ y ∷ ys) → IsSorted (xs ++ ys)
  IsSorted-skip [] y ys s = s.1
  IsSorted-skip (x ∷ xs) y ys s =
      (All-skip (λ z. key x ≤ key z) xs y ys s.0, IsSorted-skip xs y ys s.1)

  pub IsSorted-before :
      (xs : List A) (y : A) (ys : List A) → IsSorted (xs ++ y ∷ ys) → All (λ x. key x ≤ key y) xs
  IsSorted-before [] y ys s = tt
  IsSorted-before (x ∷ xs) y ys s =
      (All-middle (λ z. key x ≤ key z) xs y ys s.0, IsSorted-before xs y ys s.1)

  pub IsSorted-left : (xs ys : List A) → IsSorted (xs ++ ys) → IsSorted xs
  IsSorted-left [] ys s = tt
  IsSorted-left (x ∷ xs) ys s = (All-left (λ z. key x ≤ key z) xs ys s.0, IsSorted-left xs ys s.1)
