-- ===== src/Federation/Tests.antt =====
-- The nonce cache on concrete calls, and its theorems at inputs that meet their hypotheses.
use excubitor.Prelude.{ℕ, ◌≡◌, refl, String, List, [], ◌∷◌, true, false, arith}
use excubitor.Federation.NonceCache.{create_nonce_cache, remember, drop_expired}
use excubitor.Federation.NonceCache.Replay.{remember_all, remember_replay}
use excubitor.Federation.NonceCache.Reference.{verdicts, plain_verdicts, verdicts_reference}
use excubitor.Prelude.Maps.{lookup, insert}

abbrev requests : List (String × ℕ)
requests = ("a", 10) ∷ ("b", 20) ∷ ("a", 40) ∷ ("a", 109) ∷ ("a", 110) ∷ ("b", 130) ∷ []

verdicts_run :
    verdicts requests (create_nonce_cache 100) ≡ true ∷ true ∷ false ∷ false ∷ true ∷ true ∷ []
unfolding verdicts create_nonce_cache remember drop_expired lookup insert
verdicts_run = refl

verdicts_reference_example :
    verdicts requests (create_nonce_cache 100) ≡ plain_verdicts 100 requests []
verdicts_reference_example = verdicts_reference 100 requests (omega arith)

remember_replay_example :
    (remember "a" 100
      (remember_all (("b", 50) ∷ ("a", 70) ∷ []) (remember "a" 30 (create_nonce_cache 100)).0)).1
    ≡ false
unfolding create_nonce_cache remember lookup drop_expired
remember_replay_example =
    remember_replay "a" 30 100 (("b", 50) ∷ ("a", 70) ∷ []) (create_nonce_cache 100) refl
      (omega arith) (omega arith)
