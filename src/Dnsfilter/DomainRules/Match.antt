-- ===== src/Dnsfilter/DomainRules/Match.antt =====
-- src/dnsfilter/domain-rules.ts: `DomainSet.match` against a description by endings of the name.
use mathlib.Core.List.{append_assoc}
use excubitor.Prelude.{
  ℕ, zero, suc, ◌≤◌, ◌<◌, ◌≡◌, refl, sym, ap, ap₂, subst, ◌∙◌, ◌⊎◌, inl, inr, List, [], ◌∷◌, ◌++◌,
  Option, none, some, true, false, ◌==◌, length, length-append, arith, some_injective, Bool-cases,
  Option-cases,
}
use excubitor.Prelude.Texts.{Text, same_text, same_text_refl, same_text→eq}
use excubitor.Dnsfilter.DomainRules.{has, after_dot, match_loop, match}

-- The name is the rule's domain, or below it.
abbrev pub Covers : Text → Text → Type 0
Covers rule name = (rule ≡ name) ⊎ ((front : Text) × (name ≡ front ++ 46 ∷ rule))

-- A member of the list.
abbrev pub IsIn : Text → List Text → Type 0
IsIn rule [] = ⊥
IsIn rule (domain ∷ domains) = (domain ≡ rule) ⊎ IsIn rule domains

-- Either no rule covers the name, or this is the longest of those that do.
abbrev pub IsMatch : List Text → Text → Option Text → Type 0
IsMatch domains name none = (rule : Text) → IsIn rule domains → Covers rule name → ⊥
IsMatch domains name (some found) =
    IsIn found domains
    × Covers found name
    × ((rule : Text) → IsIn rule domains → Covers rule name → length rule ≤ length found)

has-IsIn : (domains : List Text) (name : Text) → has domains name ≡ true → IsIn name domains
unfolding has
has-IsIn [] name h = cc
has-IsIn (domain ∷ domains) name h = elim (Bool-cases (same_text domain name)) [
  | inl same ↦ inl (same_text→eq domain name same)
  | inr other ↦ inr (has-IsIn domains name (ground arith))
]

has-not : (domains : List Text) (name : Text) → has domains name ≡ false → IsIn name domains → ⊥
unfolding has
has-not [] name h i = elim i [ ]
has-not (domain ∷ domains) name h (inl e) =
    let same : same_text domain name ≡ true =
      subst (λ n. same_text domain n ≡ true) e (same_text_refl domain) in
    ground arith
has-not (domain ∷ domains) name h (inr i) = has-not domains name (ground arith) i

cons_injective : {c d : ℕ} {s t : Text} → c ∷ s ≡ d ∷ t → (c ≡ d) × (s ≡ t)
cons_injective e = (cc, cc)

-- Without a dot there is nothing above the name.
after_dot-none : (name front rest : Text) → after_dot name ≡ none → name ≡ front ++ 46 ∷ rest → ⊥
unfolding after_dot
after_dot-none [] [] rest h e = cc
after_dot-none [] (d ∷ front) rest h e = cc
after_dot-none (c ∷ name) [] rest h e = let (dot, same) = cons_injective e in ground arith
after_dot-none (c ∷ name) (d ∷ front) rest h e =
    let (head, same) = cons_injective e in after_dot-none name front rest (ground arith) same

after_dot_splits :
    (name next : Text) → after_dot name ≡ some next → (front : Text) × (name ≡ front ++ 46 ∷ next)
unfolding after_dot
after_dot_splits [] next h = cc
after_dot_splits (c ∷ name) next h = elim (Bool-cases (c == 46)) [
  | inl dot ↦
      let head : c ≡ 46 = ground arith in
      ([], ap₂ ◌∷◌ head (some_injective (sym (rw dot refl) ∙ h)))
  | inr other ↦
      let (front, same) = after_dot_splits name next (sym (rw other refl) ∙ h) in
      (c ∷ front, ap (◌∷◌ c) same)
]

-- Whatever is above a dot of the name is at or above what follows its first dot.
after_dot-Covers :
    (name next front rest : Text)
    → after_dot name ≡ some next
    → name ≡ front ++ 46 ∷ rest
    → Covers rest next
unfolding after_dot
after_dot-Covers [] next front rest h e = cc
after_dot-Covers (c ∷ name) next [] rest h e =
    let (dot, same) = cons_injective e in
    let here : some name ≡ some next = ground arith in inl (sym same ∙ some_injective here)
after_dot-Covers (c ∷ name) next (d ∷ front) rest h e =
    let (head, same) = cons_injective e in
    elim (Bool-cases (c == 46)) [
      | inl dot ↦ inr (front, sym (some_injective (sym (rw dot refl) ∙ h)) ∙ same)
      | inr other ↦ after_dot-Covers name next front rest (sym (rw other refl) ∙ h) same
    ]

Covers-after_dot :
    (name next rule : Text)
    → after_dot name ≡ some next
    → Covers rule name
    → (rule ≡ name) ⊎ Covers rule next
Covers-after_dot name next rule h (inl e) = inl e
Covers-after_dot name next rule h (inr (front, e)) = inr (after_dot-Covers name next front rule h e)

length-Covers : (rule name : Text) → Covers rule name → length rule ≤ length name
length-Covers rule name (inl e) = omega (arith, ap length e)
length-Covers rule name (inr (front, e)) =
    omega (arith, ap length e, length-append front (46 ∷ rule))

covered_above :
    (name next rule front : Text) → name ≡ front ++ 46 ∷ next → Covers rule next → Covers rule name
covered_above name next rule front e (inl same) =
    inr (front, e ∙ ap (λ r. front ++ 46 ∷ r) (sym same))
covered_above name next rule front e (inr (more, same)) = inr (
  front ++ 46 ∷ more,
  e ∙ ap (λ r. front ++ 46 ∷ r) same ∙ sym (append_assoc front (46 ∷ more) (46 ∷ rule)),
)

-- No domain of the set is the name: what is found for what follows its first dot is the match.
module _ (domains : List Text) (name : Text) (missing : has domains name ≡ false) where
  not_here : (rule : Text) → IsIn rule domains → rule ≡ name → ⊥
  not_here rule i e = has-not domains name missing (subst (λ r. IsIn r domains) e i)

  stays_covered :
      (next rule : Text)
      → after_dot name ≡ some next
      → IsIn rule domains
      → Covers rule name
      → Covers rule next
  stays_covered next rule h i c = elim (Covers-after_dot name next rule h c) [
    | inl e ↦ absurd (not_here rule i e)
    | inr d ↦ d
  ]

  IsMatch-after_dot :
      (next : Text) (o : Option Text)
      → after_dot name ≡ some next
      → IsMatch domains next o
      → IsMatch domains name o
  IsMatch-after_dot next none h m = λ rule i c. m rule i (stays_covered next rule h i c)
  IsMatch-after_dot next (some found) h m =
      let (front, split) = after_dot_splits name next h in
      (
        m.0,
        covered_above name next found front split m.1,
        λ rule i c. m.2 rule i (stays_covered next rule h i c),
      )

  IsMatch-without_dot : after_dot name ≡ none → IsMatch domains name none
  IsMatch-without_dot h rule i (inl e) = not_here rule i e
  IsMatch-without_dot h rule i (inr (front, e)) = after_dot-none name front rule h e

length-after_dot : (name next : Text) → after_dot name ≡ some next → length next < length name
length-after_dot name next h =
    let (front, split) = after_dot_splits name next h in
    omega (arith, ap length split, length-append front (46 ∷ next))

match_loop-IsMatch :
    (fuel : ℕ) (domains : List Text) (name : Text)
    → length name < fuel
    → IsMatch domains name (match_loop fuel domains name)
unfolding match_loop
match_loop-IsMatch zero domains name f = absurd (omega arith)
match_loop-IsMatch (suc fuel) domains name f = elim (Bool-cases (has domains name)) [
  | inl found ↦
      rw found (has-IsIn domains name found, inl refl, λ rule i c. length-Covers rule name c)
  | inr missing ↦ elim (Option-cases (after_dot name)) [
    | inl last ↦ rw (missing, last) (IsMatch-without_dot domains name missing last)
    | inr (next, more) ↦
        let shorter = length-after_dot name next more in
        rw (missing, more)
          (IsMatch-after_dot domains name missing next (match_loop fuel domains next) more
            (match_loop-IsMatch fuel domains next (omega arith)))
  ]
]

-- `DomainSet.match` finds the longest domain of the set that is the name or has the name below it,
-- and finds none only if there is none.
pub match-IsMatch : (domains : List Text) (name : Text) → IsMatch domains name (match domains name)
unfolding match
match-IsMatch domains name = match_loop-IsMatch (suc (length name)) domains name (omega arith)
