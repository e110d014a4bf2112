-- ===== src/Federation/NonceCache/Reference.antt =====
-- src/federation/nonce-cache.ts: the cache against a table that keeps every nonce.
use excubitor.Prelude.{
  ℕ, ◌+◌, ◌≤◌, ◌≡◌, refl, ap₂, ◌∙◌, String, eq_iff, List, [], ◌∷◌, none, Bool, true, false,
  if◌then◌else◌, arith, Bool-cases, inl, inr,
}
use excubitor.Prelude.Maps.{lookup, insert, lookup-insert}
use excubitor.Federation.NonceCache.{
  NonceCache, create_nonce_cache, drop_expired, prune, prune_due, is_live, admit, remember,
}

-- The list stands for a `Map`: no nonce has two entries.
abbrev pub IsUnique : List (String × ℕ) → Type 0
IsUnique [] = Unit {0}
IsUnique ((k, e) ∷ m) = (lookup k m ≡ none) × IsUnique m

lookup-drop_expired-none :
    (now : ℕ) (k : String) (m : List (String × ℕ))
    → lookup k m ≡ none
    → lookup k (drop_expired now m) ≡ none
unfolding lookup drop_expired
lookup-drop_expired-none now k [] h = refl
lookup-drop_expired-none now k ((j, e) ∷ m) h = ground (arith, lookup-drop_expired-none now k m)

drop_expired-IsUnique :
    (now : ℕ) (m : List (String × ℕ)) → IsUnique m → IsUnique (drop_expired now m)
unfolding drop_expired
drop_expired-IsUnique now [] u = tt
drop_expired-IsUnique now ((j, e) ∷ m) (h, u) =
    ground (arith, drop_expired-IsUnique now m u, lookup-drop_expired-none now j m h)

insert-IsUnique :
    (k : String) (e : ℕ) (m : List (String × ℕ)) → IsUnique m → IsUnique (insert k e m)
unfolding insert lookup
insert-IsUnique k e [] u = (refl, tt)
insert-IsUnique k e ((j, d) ∷ m) (h, u) =
    ground (arith, insert-IsUnique k e m u, lookup-insert k j e m, eq_iff j k, eq_iff k j)

drop_expired-is_live :
    (now t : ℕ) (k : String) (m : List (String × ℕ))
    → IsUnique m
    → now ≤ t
    → is_live t (lookup k (drop_expired now m)) ≡ is_live t (lookup k m)
unfolding lookup drop_expired
drop_expired-is_live now t k [] u h = refl
drop_expired-is_live now t k ((j, e) ∷ m) (n, u) h =
    ground
      (arith, eq_iff j k, drop_expired-is_live now t k m u h, lookup-drop_expired-none now j m n)

-- The reference: no pruning.
unfoldable pub plain_remember : ℕ → String → ℕ → List (String × ℕ) → List (String × ℕ) × Bool
plain_remember retention_ms nonce now m =
    if is_live now (lookup nonce m) then (m, false) else (insert nonce (now + retention_ms) m, true)

unfoldable pub verdicts : List (String × ℕ) → NonceCache → List Bool
verdicts [] c = []
verdicts ((nonce, now) ∷ calls) c =
    (remember nonce now c).1 ∷ verdicts calls (remember nonce now c).0

unfoldable pub plain_verdicts : ℕ → List (String × ℕ) → List (String × ℕ) → List Bool
plain_verdicts r [] m = []
plain_verdicts r ((nonce, now) ∷ calls) m =
    (plain_remember r nonce now m).1 ∷ plain_verdicts r calls (plain_remember r nonce now m).0

-- The times of the calls never fall, from `now` on.
abbrev pub IsOrdered : ℕ → List (String × ℕ) → Type 0
IsOrdered now [] = Unit {0}
IsOrdered now ((nonce, t) ∷ calls) = (now ≤ t) × IsOrdered t calls

-- The cache and the table say the same of every nonce from `now` on.
record Agree (r now : ℕ) (c : NonceCache) (m : List (String × ℕ)) : Type 0 where
  kept : c.retention_ms ≡ r
  unique : IsUnique c.seen
  same : (k : String) (t : ℕ) → now ≤ t → is_live t (lookup k c.seen) ≡ is_live t (lookup k m)

module _ {r now : ℕ} (nonce : String) {c : NonceCache} {m : List (String × ℕ)} where
  admit-verdict : Agree r now c m → (admit nonce now c).1 ≡ (plain_remember r nonce now m).1
  unfolding admit plain_remember
  admit-verdict a = ground (arith, a.same nonce now (omega arith))

  admit-Agree : Agree r now c m → Agree r now (admit nonce now c).0 (plain_remember r nonce now m).0
  unfolding admit plain_remember
  admit-Agree a = elim (Bool-cases (is_live now (lookup nonce m))) [
    | inl live ↦ rw (a.same nonce now (omega arith), live) a
    | inr free ↦
        rw (a.same nonce now (omega arith), free)
          (record {
            kept = a.kept;
            unique = insert-IsUnique nonce (now + c.retention_ms) c.seen a.unique;
            same = λ k t l. ground (
              arith,
              a.kept,
              lookup-insert nonce k (now + c.retention_ms) c.seen,
              lookup-insert nonce k (now + r) m,
              a.same k t l,
            );
          })
  ]

module _ {r before : ℕ} (now : ℕ) {c : NonceCache} {m : List (String × ℕ)} (h : before ≤ now) where
  pruned-Agree : Agree r before c m → Agree r now (if prune_due now c then prune now c else c) m
  unfolding prune
  pruned-Agree a = elim (Bool-cases (prune_due now c)) [
    | inl due ↦ rw due (record {
      kept = a.kept;
      unique = drop_expired-IsUnique now c.seen a.unique;
      same = λ k t l. drop_expired-is_live now t k c.seen a.unique l ∙ a.same k t (omega arith);
    })
    | inr idle ↦
        rw idle
          (record { kept = a.kept; unique = a.unique; same = λ k t l. a.same k t (omega arith) })
  ]

  remember-plain :
      (nonce : String)
      → Agree r before c m
      → ((remember nonce now c).1 ≡ (plain_remember r nonce now m).1)
        × Agree r now (remember nonce now c).0 (plain_remember r nonce now m).0
  unfolding remember
  remember-plain nonce a =
      (admit-verdict nonce (pruned-Agree a), admit-Agree nonce (pruned-Agree a))

verdicts-plain :
    (r before : ℕ) (calls : List (String × ℕ)) (c : NonceCache) (m : List (String × ℕ))
    → IsOrdered before calls
    → Agree r before c m
    → verdicts calls c ≡ plain_verdicts r calls m
unfolding verdicts plain_verdicts
verdicts-plain r before [] c m o a = refl
verdicts-plain r before ((nonce, now) ∷ calls) c m (h, o) a =
    let (verdict, agree) = remember-plain now h nonce a in
    ap₂ ◌∷◌ verdict (verdicts-plain r now calls _ _ o agree)

-- Asked at times that never fall, the cache gives the verdicts of a table that keeps every nonce.
pub verdicts_reference :
    (retention_ms : ℕ) (calls : List (String × ℕ))
    → IsOrdered 0 calls
    → verdicts calls (create_nonce_cache retention_ms) ≡ plain_verdicts retention_ms calls []
unfolding create_nonce_cache
verdicts_reference retention_ms calls o =
    verdicts-plain retention_ms 0 calls _ [] o
      (record { kept = refl; unique = tt; same = λ k t l. refl })
