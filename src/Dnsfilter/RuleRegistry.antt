-- ===== src/Dnsfilter/RuleRegistry.antt =====
-- src/dnsfilter/rule-registry.ts: `RuleRegistry`. The text of the file stands for the entries that it
-- holds: `load` gets what the schema makes of it. The random id is an argument.
pub mod Revision
use excubitor.Prelude.{
  ℕ, ◌+◌, String, str_eq, List, [], ◌∷◌, ◌++◌, Option, none, some, Bool, true, false, not, ltb, leb,
  ◌==◌, if◌then◌else◌, filter, length,
}
use excubitor.Prelude.Texts.{Text, same_text}
use excubitor.Prelude.Comparing.{sort_with}

pub record RuleEntry : Type 0 where
  pub id : String
  pub domain : Text
  pub reason : String
  pub created_by : String
  pub created_at_ms : ℕ
  pub expires_at_ms : Option ℕ

-- The reason of a failure, if the registry has failed.
pub record RuleRegistry : Type 0 where
  pub entries : List RuleEntry
  pub failed : Option String
  pub revision : ℕ

abbrev pub new_registry : RuleRegistry
new_registry = record { entries = []; failed = none; revision = 0 }

-- No file, a file that the schema accepts, or one that it does not.
pub data RulesFile : Type 0 where
  no_rules_file : RulesFile
  rules : List RuleEntry → RulesFile
  unreadable_rules : String → RulesFile

unfoldable pub load : RulesFile → RuleRegistry → RuleRegistry
load no_rules_file r = record { entries = []; failed = none; revision = r.revision + 1 }
load (rules entries) r = record { entries = entries; failed = none; revision = r.revision + 1 }
load (unreadable_rules reason) r = record {
  entries = [];
  failed = some reason;
  revision = r.revision + 1;
}

unfoldable pub fail : String → RuleRegistry → RuleRegistry
fail reason r = record { entries = []; failed = some reason; revision = r.revision + 1 }

abbrev pub is_live : ℕ → Option ℕ → Bool
is_live now_ms none = true
is_live now_ms (some expiry) = ltb now_ms expiry

-- `active`
abbrev pub is_active : ℕ → RuleEntry → Bool
is_active now_ms entry = is_live now_ms entry.expires_at_ms

-- The comparison of `list`: not above 0.
unfoldable pub expiry_not_after : Option ℕ → ℕ → Option ℕ → ℕ → Bool
expiry_not_after none created none other_created = leb created other_created
expiry_not_after none created (some other) other_created = true
expiry_not_after (some expiry) created none other_created = false
expiry_not_after (some expiry) created (some other) other_created =
    if expiry == other then leb created other_created else leb expiry other

abbrev pub not_after : RuleEntry → RuleEntry → Bool
not_after a b = expiry_not_after a.expires_at_ms a.created_at_ms b.expires_at_ms b.created_at_ms

unfoldable pub list : ℕ → RuleRegistry → List RuleEntry
unfolding sort_with expiry_not_after
list now_ms r = sort_with not_after (filter (is_active now_ms) r.entries)

pub data AddRuleResult : Type 0 where
  added : RuleEntry → AddRuleResult
  duplicate : RuleEntry → AddRuleResult
  full : ℕ → AddRuleResult

-- `current.find((entry) => entry.domain === domain)`
unfoldable pub find_domain : Text → List RuleEntry → Option RuleEntry
unfolding same_text
find_domain domain [] = none
find_domain domain (e ∷ es) =
    let rest = find_domain domain es in if same_text e.domain domain then some e else rest

abbrev pub expiry_of : Option ℕ → ℕ → Option ℕ
expiry_of none now_ms = none
expiry_of (some ttl_ms) now_ms = some (now_ms + ttl_ms)

-- `add` with the existing entry that was found.
unfoldable pub add_entry :
    Option RuleEntry → ℕ → List RuleEntry → RuleEntry → RuleRegistry → RuleRegistry × AddRuleResult
add_entry (some existing) max_entries current entry r = (r, duplicate existing)
add_entry none max_entries current entry r =
    if leb max_entries (length current)
    then (r, full max_entries)
    else (record r { entries = current ++ entry ∷ []; revision = r.revision + 1 }, added entry)

unfoldable pub add :
    String → Text → String → String → ℕ → Option ℕ → ℕ → RuleRegistry → RuleRegistry × AddRuleResult
unfolding list find_domain add_entry
add fresh_id domain reason created_by now_ms ttl_ms max_entries r =
    let current = list now_ms r in
    let entry : RuleEntry = record {
      id = fresh_id;
      domain = domain;
      reason = reason;
      created_by = created_by;
      created_at_ms = now_ms;
      expires_at_ms = expiry_of ttl_ms now_ms;
    } in
    add_entry (find_domain domain current) max_entries current entry r

-- `this.entries.find((entry) => entry.id === id)`
unfoldable pub find_id : String → List RuleEntry → Option RuleEntry
find_id id [] = none
find_id id (e ∷ es) = let rest = find_id id es in if str_eq e.id id then some e else rest

-- `remove` with the entry that was found.
unfoldable pub remove_found :
    Option RuleEntry → String → RuleRegistry → RuleRegistry × Option RuleEntry
remove_found none id r = (r, none)
remove_found (some target) id r = (
  record r { entries = filter (λ e. not (str_eq e.id id)) r.entries; revision = r.revision + 1 },
  some target,
)

unfoldable pub remove : String → RuleRegistry → RuleRegistry × Option RuleEntry
unfolding find_id remove_found
remove id r = remove_found (find_id id r.entries) id r

unfoldable pub expire : ℕ → RuleRegistry → RuleRegistry × Bool
expire now_ms r =
    let kept = filter (is_active now_ms) r.entries in
    if length kept == length r.entries
    then (record r { entries = kept }, false)
    else (record r { entries = kept; revision = r.revision + 1 }, true)

unfoldable pub restore : List RuleEntry → RuleRegistry → RuleRegistry
restore entries r = record r { entries = entries; revision = r.revision + 1 }
