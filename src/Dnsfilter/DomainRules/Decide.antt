-- ===== src/Dnsfilter/DomainRules/Decide.antt =====
-- src/dnsfilter/domain-rules.ts: `decide` against a description by the domains that cover the name.
use excubitor.Prelude.{◌≡◌, refl, ◌⊎◌, inl, inr, List, [], ◌∷◌, Option, none, some}
use excubitor.Prelude.Texts.{Text}
use excubitor.Dnsfilter.DomainRules.{
  RuleSource, Decision, allow, block, RuleBook, block_or, decide_blocked, allow_or, decide, match,
}
use excubitor.Dnsfilter.DomainRules.Match.{Covers, IsIn, IsMatch, match-IsMatch}

-- No domain of the list covers the name.
abbrev pub IsClear : List Text → Text → Type 0
IsClear domains name = (rule : Text) → IsIn rule domains → Covers rule name → ⊥

-- The first list with a domain that covers the name is this source's, and the rule is the longest of
-- its domains that do.
abbrev pub BlocksFirst : Text → RuleSource → Text → List (RuleSource × List Text) → Type 0
BlocksFirst rule source name [] = ⊥
BlocksFirst rule source name ((first, domains) ∷ blocked) =
    ((first ≡ source) × IsMatch domains name (some rule))
    ⊎ (IsClear domains name × BlocksFirst rule source name blocked)

abbrev pub AllClear : Text → List (RuleSource × List Text) → Type 0
AllClear name [] = Unit {0}
AllClear name ((source, domains) ∷ blocked) = IsClear domains name × AllClear name blocked

-- What a decision says of the name.
abbrev pub IsDecision : Text → RuleBook → Decision → Type 0
IsDecision name book (allow (some rule)) = IsMatch book.allowed name (some rule)
IsDecision name book (allow none) = IsClear book.allowed name × AllClear name book.blocked
IsDecision name book (block rule source) =
    IsClear book.allowed name × BlocksFirst rule source name book.blocked

abbrev IsRefusal : Text → List (RuleSource × List Text) → Decision → Type 0
IsRefusal name blocked (allow none) = AllClear name blocked
IsRefusal name blocked (allow (some rule)) = ⊥
IsRefusal name blocked (block rule source) = BlocksFirst rule source name blocked

block_or-IsRefusal :
    (name : Text) (source : RuleSource) (domains : List Text) (o : Option Text)
    (blocked : List (RuleSource × List Text)) (rest : Decision)
    → IsMatch domains name o
    → IsRefusal name blocked rest
    → IsRefusal name ((source, domains) ∷ blocked) (block_or rest source o)
unfolding block_or
block_or-IsRefusal name source domains (some rule) blocked rest m r = inl (refl, m)
block_or-IsRefusal name source domains none blocked (allow none) m r = (m, r)
block_or-IsRefusal name source domains none blocked (allow (some rule)) m r = elim r [ ]
block_or-IsRefusal name source domains none blocked (block rule first) m r = inr (m, r)

decide_blocked-IsRefusal :
    (name : Text) (blocked : List (RuleSource × List Text))
    → IsRefusal name blocked (decide_blocked name blocked)
unfolding decide_blocked
decide_blocked-IsRefusal name [] = tt
decide_blocked-IsRefusal name ((source, domains) ∷ blocked) =
    block_or-IsRefusal name source domains (match domains name) blocked
      (decide_blocked name blocked) (match-IsMatch domains name)
      (decide_blocked-IsRefusal name blocked)

allow_or-IsDecision :
    (name : Text) (book : RuleBook) (o : Option Text) (rest : Decision)
    → IsMatch book.allowed name o
    → IsRefusal name book.blocked rest
    → IsDecision name book (allow_or rest o)
unfolding allow_or
allow_or-IsDecision name book (some rule) rest m r = m
allow_or-IsDecision name book none (allow none) m r = (m, r)
allow_or-IsDecision name book none (allow (some rule)) m r = elim r [ ]
allow_or-IsDecision name book none (block rule source) m r = (m, r)

-- `decide` allows a name by the longest allowed domain that is the name or has it below it, if there
-- is one; else it refuses the name by the first source with a domain that covers it, and by the
-- longest such domain of that source; and it allows it without a rule if no domain covers it.
pub decide-IsDecision : (name : Text) (book : RuleBook) → IsDecision name book (decide name book)
unfolding decide
decide-IsDecision name book =
    allow_or-IsDecision name book (match book.allowed name) (decide_blocked name book.blocked)
      (match-IsMatch book.allowed name) (decide_blocked-IsRefusal name book.blocked)
