-- ===== src/Dnsfilter/CurrentBook/Cached.antt =====
-- src/dnsfilter/runtime.ts: names that unexpired rules cover, under the book that is kept.
use excubitor.Prelude.{
  ℕ, ◌≤◌, ◌≡◌, refl, sym, ap, subst, ◌∙◌, inl, inr, List, [], ◌∷◌, map, Option, none, some, true,
  filter, arith,
}
use excubitor.Prelude.Texts.{Text}
use excubitor.Prelude.Comparing.{Member, here, there, Member-filter, Member-sort_with}
use excubitor.Dnsfilter.DomainRules.{RuleSource, api, config, doh, Decision, allow, block, decide}
use excubitor.Dnsfilter.DomainRules.Match.{Covers, IsIn}
use excubitor.Dnsfilter.DomainRules.Decide.{IsClear, IsDecision, decide-IsDecision}
use excubitor.Dnsfilter.RuleRegistry.{RuleEntry, RuleRegistry, is_live, is_active, not_after, list}
use excubitor.Dnsfilter.CurrentBook.{RuleSettings, build_book, Runtime, look_up, Reachable}
use excubitor.Dnsfilter.CurrentBook.Kept.{Reachable-IsSound, look_up-IsBookOf}

is_live_before :
    (now_ms at_ms : ℕ) (expiry : Option ℕ)
    → at_ms ≤ now_ms
    → is_live now_ms expiry ≡ true
    → is_live at_ms expiry ≡ true
is_live_before now_ms at_ms none le h = refl
is_live_before now_ms at_ms (some expiry) le h = ground arith

IsIn-map :
    (e : RuleEntry) (es : List RuleEntry)
    → Member e es
    → IsIn e.domain (map (λ (x : RuleEntry). x.domain) es)
IsIn-map e es (here x xs) = inl refl
IsIn-map e es (there a x xs m) = inr (IsIn-map a xs m)

-- A live rule's domain is among those that the API has given.
IsIn-build_book :
    (e : RuleEntry) (now_ms at_ms : ℕ) (r : RuleRegistry)
    → Member e r.entries
    → is_active now_ms e ≡ true
    → at_ms ≤ now_ms
    → IsIn e.domain (map (λ (x : RuleEntry). x.domain) (list at_ms r))
unfolding list
IsIn-build_book e now_ms at_ms r m live le =
    let then_live = is_live_before now_ms at_ms e.expires_at_ms le live in
    IsIn-map e (list at_ms r) (
      Member-sort_with not_after e (filter (is_active at_ms) r.entries)
        (Member-filter (is_active at_ms) e r.entries then_live m))

refused_by_api :
    (name : Text) (domains allowed : List Text) (rest : List (RuleSource × List Text))
    (domain : Text) (d : Decision)
    → IsDecision name (record { allowed = allowed; blocked = (api, domains) ∷ rest }) d
    → IsClear allowed name
    → IsIn domain domains
    → Covers domain name
    → (rule : Text) × (d ≡ block rule api)
refused_by_api name domains allowed rest domain (allow none) i clear m c = absurd (i.1.0 domain m c)
refused_by_api name domains allowed rest domain (allow (some rule)) i clear m c =
    absurd (clear rule i.0 i.1)
refused_by_api name domains allowed rest domain (block rule source) (free, inl (first, found)) clear
      m c =
    (rule, ap (block rule) (sym first))
refused_by_api name domains allowed rest domain (block rule source) (free, inr (none_here, later))
      clear m c =
    absurd (none_here domain m c)

-- Whatever has happened to the rules, the settings, the kept book and the clock, which may step back: a
-- name that the domain of a rule of the registry covers which has not expired at the latest time that
-- the clock has shown, and no allowed domain of the settings, is refused with the book that
-- `currentBook` gives, on account of a rule of the API.
pub look_up-refuses :
    (s : Runtime) (settings : RuleSettings) (e : RuleEntry) (name : Text)
    → Reachable s
    → s.settings ≡ some settings
    → Member e s.registry.entries
    → is_active s.latest_ms e ≡ true
    → Covers e.domain name
    → IsClear settings.allowed name
    → (rule : Text) × (decide name (look_up s).cache.book ≡ block rule api)
unfolding build_book
look_up-refuses s settings e name r set m live c clear =
    let b = look_up-IsBookOf s (Reachable-IsSound s r) in
    let book = build_book (some settings) b.at_ms b.from in
    let same : (look_up s).cache.book ≡ book =
      b.is_built ∙ ap (λ o. build_book o b.at_ms b.from) set in
    let there : Member e b.from.entries = subst (Member e) b.same_entries m in
    let (rule, refused) =
      refused_by_api name (map (λ (x : RuleEntry). x.domain) (list b.at_ms b.from)) settings.allowed
        ((config, settings.blocked) ∷ (doh, settings.doh) ∷ []) e.domain (decide name book)
        (decide-IsDecision name book) clear
        (IsIn-build_book e s.latest_ms b.at_ms b.from there live b.not_later) c in
    (rule, ap (decide name) same ∙ refused)
