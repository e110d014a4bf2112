-- ===== src/Dnsfilter/QueryLog.antt =====
-- src/dnsfilter/query-log.ts: `QueryLog`, the ring of the recent queries and the counters. The detail
-- of a failure is kept without its wording.
use excubitor.Prelude.{
  ℕ, zero, suc, ◌+◌, ◌-◌, ◌*◌, ◌%◌, List, [], ◌∷◌, ◌++◌, Option, none, some, Bool, reverse, ltb,
  ◌==◌, if◌then◌else◌, length, get_elem?, set,
}
use excubitor.Prelude.Texts.{Text}
use excubitor.Prelude.Integers.{ℤ}
use excubitor.Dnsfilter.DomainRules.{RuleSource}

pub data QueryAction : Type 0 where
  allowed blocked failed refused : QueryAction

pub data Transport : Type 0 where
  udp tcp : Transport

-- Where the rule of a record is from: the list of allowed domains or a list of refused ones.
pub data RecordSource : Type 0 where
  allowlist : RecordSource
  blocklist : RuleSource → RecordSource

pub data Detail : Type 0 where
  other_opcode : ℕ → Detail
  too_many : ℕ → Detail
  bad_answer error_of_upstream : Detail

pub record QueryRecord : Type 0 where
  pub at_ms : ℕ
  pub client : Text
  pub transport : Transport
  pub name : Text
  pub type : Text
  pub action : QueryAction
  pub rule : Option Text
  pub source : Option RecordSource
  pub rcode : Option ℕ
  pub detail : Option Detail
  pub elapsed_ms : ℤ

pub record QueryCounters : Type 0 where
  pub total : ℕ
  pub allowed_count : ℕ
  pub blocked_count : ℕ
  pub failed_count : ℕ
  pub refused_count : ℕ
  pub malformed_count : ℕ

pub record QueryLog : Type 0 where
  pub records : List QueryRecord
  pub next : ℕ
  pub counters : QueryCounters
  pub capacity : ℕ

unfoldable pub new : ℕ → QueryLog
new capacity = record {
  records = [];
  next = 0;
  counters = record {
    total = 0;
    allowed_count = 0;
    blocked_count = 0;
    failed_count = 0;
    refused_count = 0;
    malformed_count = 0;
  };
  capacity = capacity;
}

-- `counters[record.action] += 1`, after the total.
unfoldable pub count_action : QueryAction → QueryCounters → QueryCounters
count_action allowed c = record c { total = c.total + 1; allowed_count = c.allowed_count + 1 }
count_action blocked c = record c { total = c.total + 1; blocked_count = c.blocked_count + 1 }
count_action failed c = record c { total = c.total + 1; failed_count = c.failed_count + 1 }
count_action refused c = record c { total = c.total + 1; refused_count = c.refused_count + 1 }

unfoldable pub add : QueryRecord → QueryLog → QueryLog
unfolding count_action
add r log =
    let counted = count_action r.action log.counters in
    let next = (log.next + 1) % log.capacity in
    if ltb (length log.records) log.capacity
    then record log { records = log.records ++ r ∷ []; next = next; counters = counted }
    else record log { records = set log.records log.next r; next = next; counters = counted }

-- The events that the ring does not keep.
pub data Uncounted : Type 0 where
  of_refused of_malformed : Uncounted

unfoldable pub count : Uncounted → QueryLog → QueryLog
count of_refused log =
    let c = log.counters in
    record log { counters = record c { total = c.total + 1; refused_count = c.refused_count + 1 } }
count of_malformed log =
    let c = log.counters in
    record log {
      counters = record c { total = c.total + 1; malformed_count = c.malformed_count + 1 };
    }

-- The loop of `recent`: `rounds` are left of the `size`, and `limit` records are still wanted.
unfoldable pub recent_loop : ℕ → ℕ → (QueryRecord → Bool) → QueryLog → List QueryRecord
recent_loop zero limit wanted log = []
recent_loop (suc rounds) zero wanted log = []
recent_loop (suc rounds) (suc limit) wanted log =
    let size = length log.records in
    let index = size - rounds in
    let without = recent_loop rounds (suc limit) wanted log in
    let with_one = recent_loop rounds limit wanted log in
    elim (get_elem? log.records ((log.next + size * 2 - index) % size)) [
      | none ↦ without
      | some r ↦ if wanted r then r ∷ with_one else without
    ]

unfoldable pub recent : ℕ → (QueryRecord → Bool) → QueryLog → List QueryRecord
unfolding recent_loop
recent limit wanted log = recent_loop (length log.records) limit wanted log

unfoldable pub resize : ℕ → QueryLog → QueryLog
unfolding recent
resize capacity log =
    let kept = reverse (recent capacity (λ r. Bool.true) log) in
    if capacity == log.capacity
    then log
    else record log { records = kept; next = length kept % capacity; capacity = capacity }
