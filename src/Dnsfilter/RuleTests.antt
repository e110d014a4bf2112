-- ===== src/Dnsfilter/RuleTests.antt =====
-- One rule for the domain b, and the theorems at inputs that meet their hypotheses.
use excubitor.Prelude.{◌≡◌, refl, [], ◌∷◌, Option, some, false, true, inr, max}
use excubitor.Prelude.Texts.{Text}
use excubitor.Prelude.Comparing.{Member, here}
use excubitor.Dnsfilter.DomainRules.{block, api, decide}
use excubitor.Dnsfilter.RuleRegistry.{RuleEntry, new_registry, is_active}
use excubitor.Dnsfilter.RuleService.{
  RuleLimits, AddRuleInput, RuleMutation, done, unavailable, State, add_rule,
}
use excubitor.Dnsfilter.RuleService.Changes.{change, IsAnswer, change-IsAnswer}
use excubitor.Dnsfilter.CurrentBook.{
  RuleSettings, Runtime, fresh_runtime, reconfigure, look_up, operate, adds, Reachable, starts,
  shows, operates, reconfigures, looks_up,
}
use excubitor.Dnsfilter.CurrentBook.Cached.{look_up-refuses}

abbrev b_rule : RuleEntry
b_rule = record {
  id = "1";
  domain = 98 ∷ [];
  reason = "";
  created_by = "me";
  created_at_ms = 5;
  expires_at_ms = some 60005;
}

abbrev limits : RuleLimits
limits = record { max_rules = 1; max_ttl_ms = 60000; allowed = [] }

abbrev input : AddRuleInput
input = record { domain = 98 ∷ []; reason = ""; ttl_minutes = some 1; actor = "me" }

abbrev empty_state : State
empty_state = record { registry = new_registry; file = [] }

add_run :
    (change (λ t. t) (some limits) 5 true (add_rule "1" input) empty_state).1 ≡ some (done b_rule)
unfolding change
add_run = refl

lost_write_run :
    (change (λ t. t) (some limits) 5 false (add_rule "1" input) empty_state).1 ≡ some unavailable
unfolding change
lost_write_run = refl

abbrev failed_add : State × Option RuleMutation
failed_add = change (λ t. t) (some limits) 5 false (add_rule "1" input) empty_state

change-IsAnswer_example :
    (failed_add.0.file ≡ failed_add.0.registry.entries)
    × IsAnswer empty_state failed_add.0 failed_add.1
change-IsAnswer_example =
    change-IsAnswer (λ t. t) (some limits) 5 false (add_rule "1" input) empty_state refl

abbrev settings : RuleSettings
settings = record { identity = 0; allowed = []; blocked = []; doh = [] }

-- The book is looked up before and after the rule is added.
abbrev cached : Runtime
cached = look_up (reconfigure [] [] [] (fresh_runtime 5))

abbrev with_rule : Runtime
with_rule = record cached {
  registry = operate (adds "1" (98 ∷ []) "" "me" (some 60000) 1) 5 cached.registry;
}

with_rule-Reachable : Reachable with_rule
unfolding reconfigure
with_rule-Reachable = operates (adds "1" (98 ∷ []) "" "me" (some 60000) 1) cached (
    looks_up (reconfigure [] [] [] (fresh_runtime 5))
      (reconfigures [] [] [] (fresh_runtime 5) (starts 5)))

-- The clock steps back.
abbrev stepped_back : Runtime
stepped_back = record with_rule { now_ms = 2; latest_ms = max with_rule.latest_ms 2 }

stepped_back-Reachable : Reachable stepped_back
stepped_back-Reachable = shows 2 with_rule with_rule-Reachable

b_rule-Member : Member b_rule stepped_back.registry.entries
unfolding operate reconfigure
b_rule-Member = here b_rule []

settings_kept : stepped_back.settings ≡ some settings
unfolding reconfigure
settings_kept = refl

still_live : is_active stepped_back.latest_ms b_rule ≡ true
unfolding reconfigure
still_live = refl

look_up-refuses_example :
    (rule : Text) × (decide (97 ∷ 46 ∷ 98 ∷ []) (look_up stepped_back).cache.book ≡ block rule api)
look_up-refuses_example =
    look_up-refuses stepped_back settings b_rule (97 ∷ 46 ∷ 98 ∷ []) stepped_back-Reachable
      settings_kept b_rule-Member still_live (inr (97 ∷ [], refl)) (λ rule i c. elim i [ ])
