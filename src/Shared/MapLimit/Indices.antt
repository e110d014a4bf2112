-- ===== src/Shared/MapLimit/Indices.antt =====
-- src/shared/map-limit.ts: the indices of the items, and members of lists of them.
use excubitor.Prelude.{
  ℕ, zero, suc, ◌+◌, ◌≡◌, refl, sym, ap, subst, ◌∙◌, ◌⊎◌, inl, inr, List, [], ◌∷◌, ◌++◌, All, arith,
}
use excubitor.Prelude.Comparing.{Member, here, there}
use excubitor.Shared.MapLimit.{indices}

suc_is : (n : ℕ) → suc n ≡ n + 1
suc_is n = omega arith

indices-snoc :
    (from count : ℕ) → indices from (suc count) ≡ indices from count ++ (from + count) ∷ []
unfolding indices
indices-snoc from zero = ap (λ n. n ∷ []) (omega arith)
indices-snoc from (suc count) =
    ap (◌∷◌ from)
      (indices-snoc (from + 1) count ∙ ap (λ n. indices (from + 1) count ++ n ∷ []) (omega arith))

pub indices_next : (n : ℕ) → indices 0 (n + 1) ≡ indices 0 n ++ n ∷ []
indices_next n =
    ap (indices 0) (sym (suc_is n))
    ∙ indices-snoc 0 n
    ∙ ap (λ k. indices 0 n ++ k ∷ []) (omega arith)

pub Member-left : (i : ℕ) (xs ys : List ℕ) → Member i xs → Member i (xs ++ ys)
Member-left i xs ys (here x rest) = here x (rest ++ ys)
Member-left i xs ys (there b x rest m) = there b x (rest ++ ys) (Member-left b rest ys m)

pub Member-snoc : (i : ℕ) (xs : List ℕ) → Member i (xs ++ i ∷ [])
Member-snoc i [] = here i []
Member-snoc i (x ∷ xs) = there i x (xs ++ i ∷ []) (Member-snoc i xs)

pub Member-nil : (i : ℕ) (xs : List ℕ) → Member i xs → xs ≡ [] → ⊥
Member-nil i xs (here x rest) e = cc
Member-nil i xs (there b x rest m) e = cc

head_cases : (i x : ℕ) (xs : List ℕ) → Member i (x ∷ xs) → (x ≡ i) ⊎ Member i xs
head_cases i x xs (here y ys) = inl refl
head_cases i x xs (there b y ys m) = inr m

pub Member-middle :
    (front : List ℕ) (i index : ℕ) (back : List ℕ)
    → Member i (front ++ index ∷ back)
    → (index ≡ i) ⊎ Member i (front ++ back)
Member-middle [] i index back m = head_cases i index back m
Member-middle (x ∷ front) i index back m = elim (head_cases i x (front ++ index ∷ back) m) [
  | inl e ↦ inr (subst (λ n. Member n (x ∷ (front ++ back))) e (here x (front ++ back)))
  | inr n ↦ elim (Member-middle front i index back n) [
    | inl e ↦ inl e
    | inr k ↦ inr (there i x (front ++ back) k)
  ]
]

pub All-middle :
    (P : ℕ → Type 0) (front : List ℕ) (index : ℕ) (back : List ℕ)
    → All P (front ++ index ∷ back)
    → P index × All P (front ++ back)
All-middle P [] index back a = (a.0, a.1)
All-middle P (x ∷ front) index back a =
    let (one, rest) = All-middle P front index back a.1 in (one, (a.0, rest))
