-- ===== src/Federation/NonceCache.antt =====
-- src/federation/nonce-cache.ts: `createNonceCache`, with its closure variables as a record. Times
-- are milliseconds since the epoch; the `Map` is an association list.
pub mod Replay
pub mod Reference
use excubitor.Prelude.{
  ℕ, ◌+◌, ◌*◌, String, List, [], ◌∷◌, Option, none, some, Bool, true, false, ltb, leb,
  if◌then◌else◌, length,
}
use excubitor.Prelude.Maps.{lookup, insert}

pub record NonceCache : Type 0 where
  pub retention_ms : ℕ
  pub seen : List (String × ℕ)  -- the nonces, with the time at which each expires
  pub last_prune : ℕ

unfoldable pub create_nonce_cache : ℕ → NonceCache
create_nonce_cache retention_ms = record { retention_ms = retention_ms; seen = []; last_prune = 0 }

unfoldable pub drop_expired : ℕ → List (String × ℕ) → List (String × ℕ)
drop_expired now [] = []
drop_expired now ((nonce, expires_at) ∷ m) =
    if leb expires_at now then drop_expired now m else (nonce, expires_at) ∷ drop_expired now m

unfoldable pub prune : ℕ → NonceCache → NonceCache
prune now c = record c { seen = drop_expired now c.seen; last_prune = now }

-- `now - lastPrune > retentionMs / 4`, where JavaScript's difference and quotient are exact.
unfoldable pub prune_due : ℕ → NonceCache → Bool
prune_due now c = ltb (c.retention_ms + 4 * c.last_prune) (4 * now)

-- `expiresAt !== undefined && expiresAt > now`
abbrev pub is_live : ℕ → Option ℕ → Bool
is_live now none = false
is_live now (some expires_at) = ltb now expires_at

-- The rest of `remember`, after the pruning.
unfoldable pub admit : String → ℕ → NonceCache → NonceCache × Bool
admit nonce now c =
    if is_live now (lookup nonce c.seen)
    then (c, false)
    else (record c { seen = insert nonce (now + c.retention_ms) c.seen }, true)

unfoldable pub remember : String → ℕ → NonceCache → NonceCache × Bool
unfolding prune prune_due admit
remember nonce now c = admit nonce now (if prune_due now c then prune now c else c)

pub size : NonceCache → ℕ
size c = length c.seen
