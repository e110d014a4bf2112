-- ===== src/Federation/NonceCache/Replay.antt =====
-- src/federation/nonce-cache.ts: runs of requests in which a nonce comes again.
use excubitor.Prelude.{ℕ, ◌+◌, ◌<◌, ◌≡◌, String, eq_iff, List, [], ◌∷◌, some, true, false, arith}
use excubitor.Prelude.Maps.{lookup, lookup-insert}
use excubitor.Federation.NonceCache.{NonceCache, drop_expired, remember}

pub lookup-drop_expired_live :
    (now : ℕ) (k : String) (m : List (String × ℕ)) (e : ℕ)
    → lookup k m ≡ some e
    → now < e
    → lookup k (drop_expired now m) ≡ some e
unfolding lookup drop_expired
lookup-drop_expired_live now k [] e h l = cc
lookup-drop_expired_live now k ((j, d) ∷ m) e h l =
    ground (arith, lookup-drop_expired_live now k m e)

-- A call before the expiry of an entry keeps the entry, and refuses its nonce.
pub remember-keeps :
    (nonce k : String) (now e : ℕ) (c : NonceCache)
    → lookup k c.seen ≡ some e
    → now < e
    → lookup k (remember nonce now c).0.seen ≡ some e
unfolding remember
remember-keeps nonce k now e c h l = ground (
  arith,
  lookup-drop_expired_live now k c.seen e h l,
  lookup-insert nonce k (now + c.retention_ms) c.seen,
  lookup-insert nonce k (now + c.retention_ms) (drop_expired now c.seen),
  eq_iff nonce k,
)

pub remember-refuses :
    (k : String) (now e : ℕ) (c : NonceCache)
    → lookup k c.seen ≡ some e
    → now < e
    → (remember k now c).1 ≡ false
unfolding remember
remember-refuses k now e c h l = ground (arith, lookup-drop_expired_live now k c.seen e h l)

pub remember-stores :
    (k : String) (now : ℕ) (c : NonceCache)
    → (remember k now c).1 ≡ true
    → lookup k (remember k now c).0.seen ≡ some (now + c.retention_ms)
unfolding remember
remember-stores k now c h = ground (
  arith,
  lookup-insert k k (now + c.retention_ms) c.seen,
  lookup-insert k k (now + c.retention_ms) (drop_expired now c.seen),
  eq_iff k k,
)

-- The calls of `remember`, in order.
unfoldable pub remember_all : List (String × ℕ) → NonceCache → NonceCache
remember_all [] c = c
remember_all ((nonce, now) ∷ calls) c = remember_all calls (remember nonce now c).0

abbrev pub AllBefore : ℕ → List (String × ℕ) → Type 0
AllBefore e [] = Unit {0}
AllBefore e ((nonce, now) ∷ calls) = (now < e) × AllBefore e calls

remember_all-keeps :
    (k : String) (e : ℕ) (calls : List (String × ℕ)) (c : NonceCache)
    → AllBefore e calls
    → lookup k c.seen ≡ some e
    → lookup k (remember_all calls c).seen ≡ some e
unfolding remember_all
remember_all-keeps k e [] c b h = h
remember_all-keeps k e ((nonce, now) ∷ calls) c (l, b) h =
    remember_all-keeps k e calls (remember nonce now c).0 b (remember-keeps nonce k now e c h l)

-- After a nonce is accepted, every later request with it is refused, as long as all requests come
-- before its expiry.
pub remember_replay :
    (k : String) (now later : ℕ) (calls : List (String × ℕ)) (c : NonceCache)
    → (remember k now c).1 ≡ true
    → AllBefore (now + c.retention_ms) calls
    → later < now + c.retention_ms
    → (remember k later (remember_all calls (remember k now c).0)).1 ≡ false
remember_replay k now later calls c h b l =
    remember-refuses k later (now + c.retention_ms) (remember_all calls (remember k now c).0)
      (remember_all-keeps k (now + c.retention_ms) calls (remember k now c).0 b
        (remember-stores k now c h))
      l
