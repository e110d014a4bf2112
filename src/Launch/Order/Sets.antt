-- ===== src/Launch/Order/Sets.antt =====
-- Sets of codes as lists, and how many catalog entries are not being visited.
pub use excubitor.Prelude.Sets.{has-append, has-cons_self, IsDistinct, snoc-IsDistinct}
use excubitor.Prelude.{
  ℕ, suc, ◌≤◌, ◌<◌, ◌≡◌, refl, ap, ◌≢◌, String, eq_iff, List, [], ◌∷◌, none, false, if◌then◌else◌,
  length, arith,
}
use excubitor.Launch.Order.{Service, has, by_code, delete}

pub delete_absent : (c : String) (xs : List String) → has xs c ≡ false → delete c xs ≡ xs
unfolding delete
delete_absent c [] h = refl
delete_absent c (x ∷ xs) h = ground (arith, delete_absent c xs)

-- The catalog entries whose code is not being visited.
pub free : List Service → List String → ℕ
free [] visiting = 0
free (s ∷ ss) visiting = if has visiting s.code then free ss visiting else suc (free ss visiting)

pub free-nil : (ss : List Service) → free ss [] ≡ length ss
unfolding free
free-nil [] = refl
free-nil (s ∷ ss) = ap suc (free-nil ss)

free-cons_le :
    (ss : List Service) (visiting : List String) (c : String)
    → free ss (c ∷ visiting) ≤ free ss visiting
unfolding free
free-cons_le [] visiting c = omega arith
free-cons_le (s ∷ ss) visiting c = ground (arith, free-cons_le ss visiting c)

-- Entering a catalog code leaves one entry less.
pub free-cons_lt :
    (ss : List Service) (visiting : List String) (c : String)
    → has visiting c ≡ false
    → by_code ss c ≢ none
    → free ss (c ∷ visiting) < free ss visiting
unfolding free by_code
free-cons_lt [] visiting c h n = absurd (n refl)
free-cons_lt (s ∷ ss) visiting c h n = ground (
  arith,
  eq_iff s.code c,
  eq_iff c s.code,
  free-cons_le ss visiting c,
  free-cons_lt ss visiting c h,
)

pub delete-cons_self : (c : String) (xs : List String) → has xs c ≡ false → delete c (c ∷ xs) ≡ xs
unfolding delete
delete-cons_self c xs h = ground (arith, eq_iff c c, delete_absent c xs h)
