-- ===== src/Dnsfilter/RuleService.antt =====
-- src/dnsfilter/rule-service.ts: `RuleService`, whose queue does one change at a time. The file is the
-- list of entries that `render` writes; each change has an argument that tells whether the write
-- succeeds. A change has two parts, `begin_…` up to the write and `finish` after it, since queries are
-- answered while the file is written.
pub mod Changes
use excubitor.Prelude.{
  ℕ, ◌*◌, String, List, [], ◌∷◌, Option, none, some, Bool, true, false, not, ◌||◌, ltb, ◌==◌,
  if◌then◌else◌,
}
use excubitor.Prelude.Texts.{Text}
use excubitor.Dnsfilter.DomainRules.{
  DomainParse, domain_of, empty_domain, long_domain, unreadable_domain, normalize_domain, match,
}
use excubitor.Dnsfilter.RuleRegistry.{
  RuleEntry, RuleRegistry, AddRuleResult, added, duplicate, full, list, add, remove, expire,
  restore,
}

pub record RuleLimits : Type 0 where
  pub max_rules : ℕ
  pub max_ttl_ms : ℕ
  pub allowed : List Text

-- Whether changes are taken: no limits, or a registry that has failed, are not `is_ok`.
pub data RuleState : Type 0 where
  is_ok is_disabled has_failed : RuleState

pub record RuleOverview : Type 0 where
  pub state : RuleState
  pub rules : List RuleEntry

unfoldable pub state_of : Option RuleLimits → Option String → RuleState
state_of none failed = is_disabled
state_of (some limits) none = is_ok
state_of (some limits) (some reason) = has_failed

unfoldable pub overview : Option RuleLimits → ℕ → RuleRegistry → RuleOverview
unfolding state_of list
overview limits now_ms r = record { state = state_of limits r.failed; rules = list now_ms r }

pub record AddRuleInput : Type 0 where
  pub domain : Text
  pub reason : String
  pub ttl_minutes : Option ℕ
  pub actor : String

-- The answers, by their status.
pub data RuleMutation : Type 0 where
  done : RuleEntry → RuleMutation
  bad_request : RuleMutation  -- 400
  not_found : RuleMutation  -- 404
  conflict : Option RuleEntry → RuleMutation  -- 409, with the existing entry
  unavailable : RuleMutation  -- 503

-- What a change comes to before a write: an answer, or entries to write, with those before the change
-- and, but for `expire`, the entry that is answered.
pub data Begun : Type 0 where
  answered : RuleMutation → Begun
  to_write : List RuleEntry → Option RuleEntry → Begun
  nothing_expired : Begun

-- `ready`
unfoldable pub ready : Option RuleLimits → RuleRegistry → Option RuleLimits
ready limits r = elim r.failed [ none ↦ limits | some reason ↦ none ]

-- `ttlMinutes`, if given, is a number of minutes; this tells whether it is refused.
unfoldable pub bad_ttl : Option ℕ → RuleLimits → Bool
bad_ttl none limits = false
bad_ttl (some minutes) limits = minutes * 60000 == 0 || ltb limits.max_ttl_ms (minutes * 60000)

abbrev pub ttl_of : Option ℕ → Option ℕ
ttl_of none = none
ttl_of (some minutes) = some (minutes * 60000)

pub data CheckedAdd : Type 0 where
  checked : Text → CheckedAdd
  refuse : RuleMutation → CheckedAdd

unfoldable pub check_allowed : Text → Option Text → CheckedAdd
check_allowed domain none = checked domain
check_allowed domain (some rule) = refuse (conflict none)

unfoldable pub check_parsed : DomainParse → RuleLimits → CheckedAdd
unfolding match check_allowed
check_parsed (domain_of domain) limits = check_allowed domain (match limits.allowed domain)
check_parsed _ limits = refuse bad_request

unfoldable pub check_add_input : (Text → Text) → AddRuleInput → RuleLimits → CheckedAdd
unfolding bad_ttl normalize_domain check_parsed
check_add_input lower input limits =
    if bad_ttl input.ttl_minutes limits
    then refuse bad_request
    else check_parsed (normalize_domain lower input.domain) limits

-- `addFailure`, or the write.
unfoldable pub begin_added : List RuleEntry → AddRuleResult → Begun
begin_added before (added entry) = to_write before (some entry)
begin_added before (duplicate existing) = answered (conflict (some existing))
begin_added before (full limit) = answered (conflict none)

unfoldable pub begin_checked :
    CheckedAdd → String → AddRuleInput → ℕ → RuleLimits → RuleRegistry → RuleRegistry × Begun
unfolding begin_added add
begin_checked (refuse answer) fresh_id input now_ms limits r = (r, answered answer)
begin_checked (checked domain) fresh_id input now_ms limits r =
    let (next, result) =
      add fresh_id domain input.reason input.actor now_ms (ttl_of input.ttl_minutes)
        limits.max_rules r in
    (next, begin_added r.entries result)

unfoldable pub begin_removed : List RuleEntry → Option RuleEntry → Begun
begin_removed before none = answered not_found
begin_removed before (some entry) = to_write before (some entry)

unfoldable pub begin_expired : List RuleEntry → Bool → Begun
begin_expired before true = to_write before none
begin_expired before false = nothing_expired

pub data Request : Type 0 where
  add_rule : String → AddRuleInput → Request
  remove_rule : String → Request
  expire_rules : Request

unfoldable pub begin_ready :
    (Text → Text) → Option RuleLimits → ℕ → Request → RuleRegistry → RuleRegistry × Begun
unfolding check_add_input begin_checked begin_removed begin_expired remove expire
begin_ready lower none now_ms expire_rules r = (r, nothing_expired)
begin_ready lower none now_ms (add_rule fresh_id input) r = (r, answered unavailable)
begin_ready lower none now_ms (remove_rule id) r = (r, answered unavailable)
begin_ready lower (some limits) now_ms (add_rule fresh_id input) r =
    begin_checked (check_add_input lower input limits) fresh_id input now_ms limits r
begin_ready lower (some limits) now_ms (remove_rule id) r =
    let (next, found) = remove id r in (next, begin_removed r.entries found)
begin_ready lower (some limits) now_ms expire_rules r =
    let (next, some_expired) = expire now_ms r in (next, begin_expired r.entries some_expired)

-- A change up to its write.
unfoldable pub begin :
    (Text → Text) → Option RuleLimits → ℕ → Request → RuleRegistry → RuleRegistry × Begun
unfolding ready begin_ready
begin lower limits now_ms request r = begin_ready lower (ready limits r) now_ms request r

-- The registry and the file's entries.
pub record State : Type 0 where
  pub registry : RuleRegistry
  pub file : List RuleEntry

-- The end of a change: the write has succeeded, or the registry gets back the entries before.
unfoldable pub finish : Bool → Begun → State → State
unfolding restore
finish writes (answered answer) s = s
finish writes nothing_expired s = s
finish true (to_write before entry) s = record s { file = s.registry.entries }
finish false (to_write before entry) s = record s { registry = restore before s.registry }

-- The answer: `expire` has none, and throws where the write fails.
unfoldable pub answer : Bool → Begun → Option RuleMutation
answer writes (answered m) = some m
answer writes nothing_expired = none
answer writes (to_write before none) = none
answer true (to_write before (some entry)) = some (done entry)
answer false (to_write before (some entry)) = some unavailable
