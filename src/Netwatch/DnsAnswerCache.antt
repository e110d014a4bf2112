-- ===== src/Netwatch/DnsAnswerCache.antt =====
-- src/netwatch/dns-answer-cache.ts: `DnsAnswerCache`. The `Map` is an association list in the order
-- of insertion. `toLowerCase` is an argument.
pub mod Recall
use excubitor.Prelude.{
  ℕ, suc, ◌+◌, String, str_eq, List, [], ◌∷◌, ◌++◌, Option, none, some, Bool, true, false, not, ltb,
  if◌then◌else◌, filter, take, length,
}
use excubitor.Prelude.Maps.{lookup, remove}

pub record Entry : Type 0 where
  pub names : List String
  pub seen_ms : ℕ

abbrev pub names_per_address : ℕ
names_per_address = 5

-- What of a `DnsAnswer` the cache reads.
pub record DnsAnswer : Type 0 where
  pub name : String
  pub addresses : List String

-- `previous?.names ?? []`
abbrev pub names_of : Option Entry → List String
names_of none = []
names_of (some e) = e.names

-- One round of the loop of `record`.
unfoldable pub record_key : String → ℕ → String → List (String × Entry) → List (String × Entry)
record_key name at_ms key entries =
    let names = name ∷ filter (λ n. not (str_eq n name)) (names_of (lookup key entries)) in
    remove key entries
    ++ (key, record { names = take names_per_address names; seen_ms = at_ms }) ∷ []

-- `evict`: the oldest go.
unfoldable pub evict : ℕ → List (String × Entry) → List (String × Entry)
evict max_addresses [] = []
evict max_addresses (e ∷ entries) =
    let rest = evict max_addresses entries in
    if ltb max_addresses (suc (length entries)) then rest else e ∷ entries

module _ (lower : String → String) where
  unfoldable pub record_each :
      String → ℕ → List String → List (String × Entry) → List (String × Entry)
  record_each name at_ms [] entries = entries
  record_each name at_ms (address ∷ addresses) entries =
      record_each name at_ms addresses (record_key name at_ms (lower address) entries)

  unfoldable pub record_answer : ℕ → DnsAnswer → ℕ → List (String × Entry) → List (String × Entry)
  record_answer max_addresses answer at_ms entries =
      evict max_addresses (record_each answer.name at_ms answer.addresses entries)

  unfoldable pub names_for : ℕ → String → ℕ → List (String × Entry) → List String
  names_for ttl_ms address now_ms entries = elim (lookup (lower address) entries) [
    | none ↦ []
    | some e ↦ if ltb (e.seen_ms + ttl_ms) now_ms then [] else e.names
  ]
