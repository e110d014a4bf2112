-- ===== src/Dnsfilter/RuleService/Changes.antt =====
-- src/dnsfilter/rule-service.ts: whole changes, with writes that succeed or fail.
use excubitor.Prelude.{
  ℕ, ◌≡◌, refl, sym, subst, ◌∙◌, ◌⊎◌, inl, inr, String, str_eq, List, [], ◌∷◌, ◌++◌, Option, none,
  some, Bool, true, false, leb, length, some_injective, Bool-cases,
}
use excubitor.Prelude.Texts.{Text}
use excubitor.Prelude.Comparing.{Member, here, there}
use excubitor.Dnsfilter.DomainRules.{
  DomainParse, domain_of, empty_domain, long_domain, unreadable_domain, normalize_domain, match,
}
use excubitor.Dnsfilter.RuleRegistry.{
  RuleEntry, RuleRegistry, list, find_domain, add_entry, add, find_id, remove_found, remove, expire,
  restore,
}
use excubitor.Dnsfilter.RuleRegistry.Revision.{expire_kept}
use excubitor.Dnsfilter.RuleService.{
  RuleLimits, AddRuleInput, RuleMutation, done, bad_request, not_found, conflict, unavailable,
  Begun, answered, to_write, nothing_expired, bad_ttl, ready, CheckedAdd, checked, refuse,
  check_allowed, check_parsed, check_add_input, begin_added, begin_checked, begin_removed,
  begin_expired, Request, add_rule, remove_rule, expire_rules, begin_ready, begin, State, finish,
  answer,
}

-- A change from its begin to its end, as the queue does it, and its answer.
unfoldable pub change :
    (Text → Text) → Option RuleLimits → ℕ → Bool → Request → State → State × Option RuleMutation
unfolding begin finish answer
change lower limits now_ms writes request s =
    let (r, b) = begin lower limits now_ms request s.registry in
    (finish writes b (record s { registry = r }), answer writes b)

abbrev IsFailure : RuleMutation → Type 0
IsFailure (done entry) = ⊥
IsFailure bad_request = Unit {0}
IsFailure not_found = Unit {0}
IsFailure (conflict existing) = Unit {0}
IsFailure unavailable = Unit {0}

-- The registry after the first part, and what is to be written.
abbrev Begins : RuleRegistry → RuleRegistry × Begun → Type 0
Begins r (next, answered m) = (next.entries ≡ r.entries) × IsFailure m
Begins r (next, nothing_expired) = next.entries ≡ r.entries
Begins r (next, to_write before none) = before ≡ r.entries
Begins r (next, to_write before (some entry)) =
    (before ≡ r.entries) × (Member entry r.entries ⊎ Member entry next.entries)

-- A failure changes neither the registry nor the file; an entry is answered only if it was in the
-- file or is in it.
abbrev pub IsAnswer : State → State → Option RuleMutation → Type 0
IsAnswer s next none = Unit {0}
IsAnswer s next (some (done entry)) = Member entry s.file ⊎ Member entry next.file
IsAnswer s next (some bad_request) =
    (next.registry.entries ≡ s.registry.entries) × (next.file ≡ s.file)
IsAnswer s next (some not_found) =
    (next.registry.entries ≡ s.registry.entries) × (next.file ≡ s.file)
IsAnswer s next (some (conflict existing)) =
    (next.registry.entries ≡ s.registry.entries) × (next.file ≡ s.file)
IsAnswer s next (some unavailable) =
    (next.registry.entries ≡ s.registry.entries) × (next.file ≡ s.file)

Member-snoc : (e : RuleEntry) (es : List RuleEntry) → Member e (es ++ e ∷ [])
Member-snoc e [] = here e []
Member-snoc e (x ∷ es) = there e x (es ++ e ∷ []) (Member-snoc e es)

Member-find_id :
    (id : String) (es : List RuleEntry) (e : RuleEntry) → find_id id es ≡ some e → Member e es
unfolding find_id
Member-find_id id [] e h = cc
Member-find_id id (x ∷ es) e h = elim (Bool-cases (str_eq x.id id)) [
  | inl same ↦
      let found : x ≡ e = some_injective (sym (rw same refl) ∙ h) in
      subst (λ y. Member y (x ∷ es)) found (here x es)
  | inr other ↦ there e x es (Member-find_id id es e (sym (rw other refl) ∙ h))
]

add_entry-Begins :
    (found : Option RuleEntry) (max_entries : ℕ) (current : List RuleEntry) (e : RuleEntry)
    (r : RuleRegistry)
    → Begins r (
      (add_entry found max_entries current e r).0,
      begin_added r.entries (add_entry found max_entries current e r).1,
    )
unfolding add_entry begin_added
add_entry-Begins (some old) max_entries current e r = (refl, tt)
add_entry-Begins none max_entries current e r =
    elim (Bool-cases (leb max_entries (length current))) [
      | inl over ↦ rw over (refl, tt)
      | inr room ↦ rw room (refl, inr (Member-snoc e current))
    ]

abbrev IsChecked : CheckedAdd → Type 0
IsChecked (refuse m) = IsFailure m
IsChecked (checked domain) = Unit {0}

check_allowed-IsChecked : (domain : Text) (o : Option Text) → IsChecked (check_allowed domain o)
unfolding check_allowed
check_allowed-IsChecked domain none = tt
check_allowed-IsChecked domain (some rule) = tt

check_parsed-IsChecked : (p : DomainParse) (limits : RuleLimits) → IsChecked (check_parsed p limits)
unfolding check_parsed
check_parsed-IsChecked (domain_of domain) limits =
    check_allowed-IsChecked domain (match limits.allowed domain)
check_parsed-IsChecked empty_domain limits = tt
check_parsed-IsChecked long_domain limits = tt
check_parsed-IsChecked unreadable_domain limits = tt

check_add_input-IsChecked :
    (lower : Text → Text) (input : AddRuleInput) (limits : RuleLimits)
    → IsChecked (check_add_input lower input limits)
unfolding check_add_input
check_add_input-IsChecked lower input limits =
    elim (Bool-cases (bad_ttl input.ttl_minutes limits)) [
      | inl bad ↦ rw bad tt
      | inr fine ↦ rw fine (check_parsed-IsChecked (normalize_domain lower input.domain) limits)
    ]

begin_checked-Begins :
    (c : CheckedAdd) (fresh_id : String) (input : AddRuleInput) (now_ms : ℕ) (limits : RuleLimits)
    (r : RuleRegistry)
    → IsChecked c
    → Begins r (begin_checked c fresh_id input now_ms limits r)
unfolding begin_checked add
begin_checked-Begins (refuse m) fresh_id input now_ms limits r f = (refl, f)
begin_checked-Begins (checked domain) fresh_id input now_ms limits r f =
    add_entry-Begins (find_domain domain (list now_ms r)) limits.max_rules (list now_ms r) _ r

remove_found-Begins :
    (found : Option RuleEntry) (id : String) (r : RuleRegistry)
    → ((e : RuleEntry) → found ≡ some e → Member e r.entries)
    → Begins r ((remove_found found id r).0, begin_removed r.entries (remove_found found id r).1)
unfolding remove_found begin_removed
remove_found-Begins none id r f = (refl, tt)
remove_found-Begins (some e) id r f = (refl, inl (f e refl))

expired-Begins :
    (r next : RuleRegistry) (some_expired : Bool)
    → (some_expired ≡ false → next.entries ≡ r.entries)
    → Begins r (next, begin_expired r.entries some_expired)
unfolding begin_expired
expired-Begins r next true f = refl
expired-Begins r next false f = f refl

begin_ready-Begins :
    (lower : Text → Text) (limits : Option RuleLimits) (now_ms : ℕ) (request : Request)
    (r : RuleRegistry)
    → Begins r (begin_ready lower limits now_ms request r)
unfolding begin_ready remove
begin_ready-Begins lower none now_ms expire_rules r = refl
begin_ready-Begins lower none now_ms (add_rule fresh_id input) r = (refl, tt)
begin_ready-Begins lower none now_ms (remove_rule id) r = (refl, tt)
begin_ready-Begins lower (some limits) now_ms (add_rule fresh_id input) r =
    begin_checked-Begins (check_add_input lower input limits) fresh_id input now_ms limits r
      (check_add_input-IsChecked lower input limits)
begin_ready-Begins lower (some limits) now_ms (remove_rule id) r =
    remove_found-Begins (find_id id r.entries) id r (Member-find_id id r.entries)
begin_ready-Begins lower (some limits) now_ms expire_rules r =
    expired-Begins r (expire now_ms r).0 (expire now_ms r).1 (expire_kept now_ms r)

finish-IsAnswer :
    (writes : Bool) (b : Begun) (s : State) (r : RuleRegistry)
    → s.file ≡ s.registry.entries
    → Begins s.registry (r, b)
    → ((finish writes b (record s { registry = r })).file
        ≡ (finish writes b (record s { registry = r })).registry.entries)
      × IsAnswer s (finish writes b (record s { registry = r })) (answer writes b)
unfolding finish answer restore
finish-IsAnswer writes (answered (done e)) s r c h = absurd h.1
finish-IsAnswer writes (answered bad_request) s r c h = (c ∙ sym h.0, (h.0, refl))
finish-IsAnswer writes (answered not_found) s r c h = (c ∙ sym h.0, (h.0, refl))
finish-IsAnswer writes (answered (conflict old)) s r c h = (c ∙ sym h.0, (h.0, refl))
finish-IsAnswer writes (answered unavailable) s r c h = (c ∙ sym h.0, (h.0, refl))
finish-IsAnswer writes nothing_expired s r c h = (c ∙ sym h, tt)
finish-IsAnswer true (to_write before none) s r c h = (refl, tt)
finish-IsAnswer false (to_write before none) s r c h = (c ∙ sym h, tt)
finish-IsAnswer true (to_write before (some e)) s r c (h, inl m) =
    (refl, inl (subst (Member e) (sym c) m))
finish-IsAnswer true (to_write before (some e)) s r c (h, inr m) = (refl, inr m)
finish-IsAnswer false (to_write before (some e)) s r c (h, m) = (c ∙ sym h, (h, refl))

-- Where the file holds the registry's entries, it does so after every change, whether its write
-- succeeds or fails; a change that is answered by an error, be it for a write that failed, leaves the
-- entries and the file as they were, and one that is answered by an entry has that entry in the file
-- before or after it.
pub change-IsAnswer :
    (lower : Text → Text) (limits : Option RuleLimits) (now_ms : ℕ) (writes : Bool)
    (request : Request) (s : State)
    → s.file ≡ s.registry.entries
    → ((change lower limits now_ms writes request s).0.file
        ≡ (change lower limits now_ms writes request s).0.registry.entries)
      × IsAnswer s
          (change lower limits now_ms writes request s).0
          (change lower limits now_ms writes request s).1
unfolding change begin
change-IsAnswer lower limits now_ms writes request s c =
    let (r, b) = begin_ready lower (ready limits s.registry) now_ms request s.registry in
    finish-IsAnswer writes b s r c
      (begin_ready-Begins lower (ready limits s.registry) now_ms request s.registry)
