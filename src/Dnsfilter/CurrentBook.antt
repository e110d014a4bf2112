-- ===== src/Dnsfilter/CurrentBook.antt =====
-- src/dnsfilter/runtime.ts: `currentBook`, which keeps the domain sets until the registry's revision or
-- the settings change, and the steps between two of its calls. Two settings are the same object if
-- they have the same identity.
mod Kept
pub mod Cached
use excubitor.Prelude.{
  ℕ, ◌+◌, String, List, [], ◌∷◌, map, Option, none, some, Bool, true, false, ◌&&◌, ◌==◌, max,
  if◌then◌else◌,
}
use excubitor.Prelude.Texts.{Text}
use excubitor.Dnsfilter.DomainRules.{api, config, doh, RuleBook}
use excubitor.Dnsfilter.RuleRegistry.{
  RuleEntry, RuleRegistry, new_registry, RulesFile, load, fail, list, add, remove, expire, restore,
}

pub record RuleSettings : Type 0 where
  pub identity : ℕ
  pub allowed : List Text
  pub blocked : List Text
  pub doh : List Text

-- `book` and `bookKey`, which is at first one that no registry has.
pub record BookCache : Type 0 where
  pub book : RuleBook
  pub key : Option (ℕ × Option RuleSettings)

abbrev pub empty_cache : BookCache
empty_cache = record { book = record { allowed = []; blocked = [] }; key = none }

unfoldable pub build_book : Option RuleSettings → ℕ → RuleRegistry → RuleBook
unfolding list
build_book none now_ms r = record { allowed = []; blocked = [] }
build_book (some settings) now_ms r = record {
  allowed = settings.allowed;
  blocked =
      (api, map (λ (e : RuleEntry). e.domain) (list now_ms r))
      ∷ (config, settings.blocked)
      ∷ (doh, settings.doh)
      ∷ [];
}

abbrev pub same_settings : Option RuleSettings → Option RuleSettings → Bool
same_settings none none = true
same_settings none (some settings) = false
same_settings (some settings) none = false
same_settings (some settings) (some other) = settings.identity == other.identity

abbrev pub key_holds : Option (ℕ × Option RuleSettings) → ℕ → Option RuleSettings → Bool
key_holds none revision settings = false
key_holds (some (at, known)) revision settings = at == revision && same_settings known settings

unfoldable pub current_book : Option RuleSettings → ℕ → RuleRegistry → BookCache → BookCache
unfolding build_book
current_book settings now_ms r cache =
    if key_holds cache.key r.revision settings
    then cache
    else record { book = build_book settings now_ms r; key = some (r.revision, settings) }

-- The calls of the registry: by the service and by the loading of the file.
pub data Operation : Type 0 where
  loads : RulesFile → Operation
  fails : String → Operation
  adds : String → Text → String → String → Option ℕ → ℕ → Operation
  removes : String → Operation
  expires : Operation
  restores : List RuleEntry → Operation

unfoldable pub operate : Operation → ℕ → RuleRegistry → RuleRegistry
unfolding load fail add remove expire restore
operate (loads f) now_ms r = load f r
operate (fails reason) now_ms r = fail reason r
operate (adds fresh_id domain reason created_by ttl_ms max_entries) now_ms r =
    (add fresh_id domain reason created_by now_ms ttl_ms max_entries r).0
operate (removes id) now_ms r = (remove id r).0
operate expires now_ms r = (expire now_ms r).0
operate (restores entries) now_ms r = restore entries r

-- The variables of the runtime; `now_ms` is what the clock shows, which may step back, `latest_ms` the
-- greatest time that it has shown, and `made` counts the settings that were made.
pub record Runtime : Type 0 where
  pub registry : RuleRegistry
  pub settings : Option RuleSettings
  pub cache : BookCache
  pub now_ms : ℕ
  pub latest_ms : ℕ
  pub made : ℕ

abbrev pub fresh_runtime : ℕ → Runtime
fresh_runtime now_ms = record {
  registry = new_registry;
  settings = none;
  cache = empty_cache;
  now_ms = now_ms;
  latest_ms = now_ms;
  made = 0;
}

-- New settings from the configuration.
unfoldable pub reconfigure : List Text → List Text → List Text → Runtime → Runtime
reconfigure allowed blocked doh_domains s = record s {
  settings =
      some (record { identity = s.made; allowed = allowed; blocked = blocked; doh = doh_domains });
  made = s.made + 1;
}

abbrev pub look_up : Runtime → Runtime
look_up s = record s { cache = current_book s.settings s.now_ms s.registry s.cache }

-- Whatever comes in between, in any order, with any times of the clock.
pub data Reachable : Runtime → Type 0 where
  starts : (now_ms : ℕ) → Reachable (fresh_runtime now_ms)
  shows :
      (ms : ℕ) (s : Runtime)
      → Reachable s
      → Reachable (record s { now_ms = ms; latest_ms = max s.latest_ms ms })
  operates :
      (op : Operation) (s : Runtime)
      → Reachable s
      → Reachable (record s { registry = operate op s.now_ms s.registry })
  reconfigures :
      (allowed blocked doh_domains : List Text) (s : Runtime)
      → Reachable s
      → Reachable (reconfigure allowed blocked doh_domains s)
  disables : (s : Runtime) → Reachable s → Reachable (record s { settings = none })
  looks_up : (s : Runtime) → Reachable s → Reachable (look_up s)
