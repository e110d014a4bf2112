-- ===== src/Prelude/Sets.antt =====
-- Sets of codes as lists.
use Prim.Native.String.{String}
use mathlib.Core.Path.{◌≡◌, refl}
use mathlib.Core.Bool.{Bool, true, false, ◌||◌}
use mathlib.Core.List.{List, [], ◌∷◌, ◌++◌}
use native.Mathlib.Omega.{arith}
use text.Mathlib.Text.{◌==◌ as str_eq}
use text.Mathlib.TextEquality.{eq_iff}
use excubitor.Prelude.Lists.{any}

-- `Set.has`
abbrev pub has : List String → String → Bool
has set code = any (λ c. str_eq c code) set

pub has-append : (xs ys : List String) (c : String) → has (xs ++ ys) c ≡ has xs c || has ys c
has-append [] ys c = refl
has-append (x ∷ xs) ys c = ground (arith, has-append xs ys c)

pub has-cons_self : (c : String) (xs : List String) → has (c ∷ xs) c ≡ true
has-cons_self c xs = ground (arith, eq_iff c c)

-- No code stands twice in the list.
abbrev pub IsDistinct : List String → Type 0
IsDistinct [] = Unit {0}
IsDistinct (c ∷ cs) = (has cs c ≡ false) × IsDistinct cs

pub snoc-IsDistinct :
    (cs : List String) (c : String) → IsDistinct cs → has cs c ≡ false → IsDistinct (cs ++ c ∷ [])
snoc-IsDistinct [] c d h = (refl, tt)
snoc-IsDistinct (x ∷ cs) c d h =
    ground (arith, snoc-IsDistinct cs c d.1, has-append cs (c ∷ []) x, eq_iff x c, eq_iff c x)
