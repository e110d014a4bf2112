-- ===== src/Netwatch/CacheTests.antt =====
-- The cache of answers on small runs, and its theorem at an input that meets its hypotheses.
use excubitor.Prelude.{◌≡◌, ◌≤◌, refl, String, List, [], ◌∷◌, arith, length}
use excubitor.Prelude.Maps.{lookup, remove}
use excubitor.Netwatch.DnsAnswerCache.{
  Entry, record_answer, record_each, record_key, evict, names_for,
}
use excubitor.Netwatch.DnsAnswerCache.Recall.{record_answer-names_for}

abbrev keep : String → String
keep s = s

abbrev once : List (String × Entry)
once =
    record_answer keep 2 (record { name = "a.example"; addresses = "192.0.2.1" ∷ "192.0.2.2" ∷ [] })
      10 []

abbrev twice : List (String × Entry)
twice = record_answer keep 2 (record { name = "b.example"; addresses = "192.0.2.2" ∷ [] }) 20 once

names_run : names_for keep 60 "192.0.2.2" 50 twice ≡ "b.example" ∷ "a.example" ∷ []
unfolding record_answer record_each record_key evict names_for lookup remove
names_run = refl

record_answer-names_for_example :
    (length twice ≤ 2)
    × ((names : List String) × (names_for keep 60 "192.0.2.2" 50 twice ≡ "b.example" ∷ names))
record_answer-names_for_example =
    record_answer-names_for keep 2 60 "b.example" [] "192.0.2.2" 20 50 once (omega arith)
      (omega arith)
