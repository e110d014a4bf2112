-- ===== src/Netwatch/DnsAnswerCache/Recall.antt =====
-- src/netwatch/dns-answer-cache.ts: the size of the cache, and what it gives for an address just
-- seen.
use excubitor.Prelude.{
  ℕ, ◌+◌, ◌≤◌, ◌<◌, ◌≡◌, refl, ap, ◌∙◌, String, str_eq, eq_iff, List, [], ◌∷◌, ◌++◌, none, some,
  not, filter, take, length, arith,
}
use excubitor.Prelude.Maps.{lookup, remove, lookup-remove}
use excubitor.Netwatch.DnsAnswerCache.{
  Entry, names_of, record_key, evict, record_each, record_answer, names_for,
}

evict-le : (m : ℕ) (entries : List (String × Entry)) → length (evict m entries) ≤ m
unfolding evict
evict-le m [] = omega arith
evict-le m (e ∷ entries) = ground (arith, evict-le m entries)

lookup-append_absent :
    (key : String) (xs ys : List (String × Entry))
    → lookup key xs ≡ none
    → lookup key (xs ++ ys) ≡ lookup key ys
unfolding lookup
lookup-append_absent key [] ys h = refl
lookup-append_absent key ((k, e) ∷ xs) ys h = ground (arith, lookup-append_absent key xs ys)

-- The newest entry stays.
lookup-evict_last :
    (m : ℕ) (key : String) (e : Entry) (xs : List (String × Entry))
    → 0 < m
    → lookup key xs ≡ none
    → lookup key (evict m (xs ++ (key, e) ∷ [])) ≡ some e
unfolding evict lookup
lookup-evict_last m key e [] pos h = ground (arith, eq_iff key key)
lookup-evict_last m key e ((k, x) ∷ xs) pos h = ground (
  arith,
  lookup-evict_last m key e xs pos,
  lookup-append_absent key xs ((key, e) ∷ []),
  eq_iff key key,
)

record_each-snoc :
    (lower : String → String) (name : String) (at_ms : ℕ) (addresses : List String) (last : String)
    (entries : List (String × Entry))
    → record_each lower name at_ms (addresses ++ last ∷ []) entries
      ≡ record_key name at_ms (lower last) (record_each lower name at_ms addresses entries)
unfolding record_each
record_each-snoc lower name at_ms [] last entries = refl
record_each-snoc lower name at_ms (a ∷ addresses) last entries =
    record_each-snoc lower name at_ms addresses last (record_key name at_ms (lower a) entries)

lookup-evict-record_key :
    (m : ℕ) (name key : String) (at_ms : ℕ) (entries : List (String × Entry))
    → 0 < m
    → (names : List String) × (lookup key (evict m (record_key name at_ms key entries))
        ≡ some (record { names = name ∷ names; seen_ms = at_ms }))
unfolding record_key
lookup-evict-record_key m name key at_ms entries pos = (
  take 4 (filter (λ n. not (str_eq n name)) (names_of (lookup key entries))),
  lookup-evict_last m key _ (remove key entries) pos
      (ground (arith, lookup-remove key key entries, eq_iff key key)),
)

names_for-some :
    (lower : String → String) (ttl_ms now_ms : ℕ) (address : String) (e : Entry)
    (entries : List (String × Entry))
    → lookup (lower address) entries ≡ some e
    → now_ms ≤ e.seen_ms + ttl_ms
    → names_for lower ttl_ms address now_ms entries ≡ e.names
unfolding names_for
names_for-some lower ttl_ms now_ms address e entries h l = ground (arith, h)

-- If the cache may hold `m` addresses, with `m` not 0, then it holds no more after an answer is
-- recorded, and the names for the last address of the answer begin, until their time is over, with
-- the answer's name.
pub record_answer-names_for :
    (lower : String → String) (m ttl_ms : ℕ) (name : String) (addresses : List String)
    (last : String) (at_ms now_ms : ℕ) (entries : List (String × Entry))
    → 0 < m
    → now_ms ≤ at_ms + ttl_ms
    → (let after =
          record_answer lower m
            (record { name = name; addresses = addresses ++ last ∷ [] })
            at_ms
            entries in
        (length after ≤ m)
        × ((names : List String) × (names_for lower ttl_ms last now_ms after ≡ name ∷ names)))
unfolding record_answer
record_answer-names_for lower m ttl_ms name addresses last at_ms now_ms entries pos l =
    let before = record_each lower name at_ms addresses entries in
    let (names, found) = lookup-evict-record_key m name (lower last) at_ms before pos in
    let same = record_each-snoc lower name at_ms addresses last entries in
    (
      evict-le m (record_each lower name at_ms (addresses ++ last ∷ []) entries),
      (
        names,
        names_for-some lower ttl_ms now_ms last (record { names = name ∷ names; seen_ms = at_ms }) _
            (ap (λ es. lookup (lower last) (evict m es)) same ∙ found) l,
      ),
    )
