-- ===== src/Dnsfilter/RuleRegistry/Revision.antt =====
-- src/dnsfilter/rule-registry.ts: the revision tells whether the entries may have changed.
use excubitor.Prelude.{
  ℕ, ◌≤◌, ◌<◌, ◌⊎◌, ◌≡◌, refl, ap, String, List, [], ◌∷◌, Option, none, some, Bool, false, leb,
  ◌==◌, filter, length, arith, inl, inr, Bool-cases,
}
use excubitor.Prelude.Texts.{Text}
use excubitor.Dnsfilter.RuleRegistry.{
  RuleEntry, RuleRegistry, RulesFile, no_rules_file, rules, unreadable_rules, load, fail, is_active,
  list, find_domain, add_entry, add, find_id, remove_found, remove, expire, restore,
}

-- The revision does not fall, and entries that differ have another one.
abbrev pub IsTracked : RuleRegistry → RuleRegistry → Type 0
IsTracked r next =
    (r.revision < next.revision) ⊎ ((next.revision ≡ r.revision) × (next.entries ≡ r.entries))

length-filter : (p : RuleEntry → Bool) (es : List RuleEntry) → length (filter p es) ≤ length es
length-filter p [] = omega arith
length-filter p (e ∷ es) = ground (arith, length-filter p es)

-- A filter that takes nothing away changes nothing.
filter_all :
    (p : RuleEntry → Bool) (es : List RuleEntry)
    → length (filter p es) ≡ length es
    → filter p es ≡ es
filter_all p [] h = refl
filter_all p (e ∷ es) h = elim (Bool-cases (p e)) [
  | inl kept ↦
      let same : length (filter p es) ≡ length es = ground (arith, kept) in
      rw kept (ap (◌∷◌ e) (filter_all p es same))
  | inr dropped ↦ absurd (ground (arith, dropped, length-filter p es))
]

pub load-IsTracked : (f : RulesFile) (r : RuleRegistry) → IsTracked r (load f r)
unfolding load
load-IsTracked no_rules_file r = inl (omega arith)
load-IsTracked (rules entries) r = inl (omega arith)
load-IsTracked (unreadable_rules reason) r = inl (omega arith)

pub fail-IsTracked : (reason : String) (r : RuleRegistry) → IsTracked r (fail reason r)
unfolding fail
fail-IsTracked reason r = inl (omega arith)

add_entry-IsTracked :
    (found : Option RuleEntry) (max_entries : ℕ) (current : List RuleEntry) (e : RuleEntry)
    (r : RuleRegistry)
    → IsTracked r (add_entry found max_entries current e r).0
unfolding add_entry
add_entry-IsTracked (some old) max_entries current e r = inr (refl, refl)
add_entry-IsTracked none max_entries current e r =
    elim (Bool-cases (leb max_entries (length current))) [
      | inl over ↦ rw over (inr (refl, refl))
      | inr room ↦ rw room (inl (omega arith))
    ]

pub add-IsTracked :
    (fresh_id : String) (domain : Text) (reason created_by : String) (now_ms : ℕ)
    (ttl_ms : Option ℕ) (max_entries : ℕ) (r : RuleRegistry)
    → IsTracked r (add fresh_id domain reason created_by now_ms ttl_ms max_entries r).0
unfolding add
add-IsTracked fresh_id domain reason created_by now_ms ttl_ms max_entries r =
    add_entry-IsTracked (find_domain domain (list now_ms r)) max_entries (list now_ms r) _ r

remove_found-IsTracked :
    (found : Option RuleEntry) (id : String) (r : RuleRegistry)
    → IsTracked r (remove_found found id r).0
unfolding remove_found
remove_found-IsTracked none id r = inr (refl, refl)
remove_found-IsTracked (some e) id r = inl (omega arith)

pub remove-IsTracked : (id : String) (r : RuleRegistry) → IsTracked r (remove id r).0
unfolding remove
remove-IsTracked id r = remove_found-IsTracked (find_id id r.entries) id r

pub expire-IsTracked : (now_ms : ℕ) (r : RuleRegistry) → IsTracked r (expire now_ms r).0
unfolding expire
expire-IsTracked now_ms r =
    let kept = filter (is_active now_ms) r.entries in
    elim (Bool-cases (length kept == length r.entries)) [
      | inl all ↦
          let same : length kept ≡ length r.entries = ground (arith, all) in
          rw all (inr (refl, filter_all (is_active now_ms) r.entries same))
      | inr fewer ↦ rw fewer (inl (omega arith))
    ]

-- Where nothing expires, the entries are the same.
pub expire_kept :
    (now_ms : ℕ) (r : RuleRegistry)
    → (expire now_ms r).1 ≡ false
    → (expire now_ms r).0.entries ≡ r.entries
unfolding expire
expire_kept now_ms r h =
    let kept = filter (is_active now_ms) r.entries in
    elim (Bool-cases (length kept == length r.entries)) [
      | inl all ↦
          let same : length kept ≡ length r.entries = ground (arith, all) in
          rw all (filter_all (is_active now_ms) r.entries same)
      | inr fewer ↦ absurd (ground (arith, fewer))
    ]

pub restore-IsTracked :
    (entries : List RuleEntry) (r : RuleRegistry) → IsTracked r (restore entries r)
unfolding restore
restore-IsTracked entries r = inl (omega arith)
