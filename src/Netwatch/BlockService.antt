-- ===== src/Netwatch/BlockService.antt =====
-- src/netwatch/block-service.ts: `BlockService`, whose queue does one change at a time. The file is
-- the list of entries that `render` writes; each change has an argument that tells whether the
-- write succeeds. The settings and the outcome of `validateBlockTarget` are arguments.
pub mod Consistency
use excubitor.Prelude.{
  ℕ, ◌*◌, String, List, [], ◌∷◌, Option, none, some, Bool, true, false, not, ◌||◌, ltb, ◌==◌,
  if◌then◌else◌,
}
use excubitor.Netwatch.BlockRegistry.{
  BlockTarget, BlockEntry, BlockRegistry, AddResult, added, duplicate, full, add, remove, expire,
  restore,
}

pub record BlockSettings : Type 0 where
  pub default_ttl_ms : ℕ
  pub max_ttl_ms : ℕ
  pub max_entries : ℕ

-- The registry and the file's entries.
pub record State : Type 0 where
  pub registry : BlockRegistry
  pub file : List BlockEntry

-- The answers, by their status.
pub data BlockMutation : Type 0 where
  done : BlockEntry → BlockMutation
  bad_request : BlockMutation  -- 400
  not_found : BlockMutation  -- 404
  conflict : Option BlockEntry → BlockMutation  -- 409, with the existing entry
  unavailable : BlockMutation  -- 503

-- `ready`
unfoldable pub ready : Option BlockSettings → BlockRegistry → Option BlockSettings
ready settings r = elim r.failed [ none ↦ settings | some reason ↦ none ]

-- `commit`, with the entries before the change: write the file, or take the change back.
unfoldable pub commit : Bool → List BlockEntry → BlockEntry → State → State × BlockMutation
commit true before entry s = (record s { file = s.registry.entries }, done entry)
commit false before entry s = (record s { registry = restore before s.registry }, unavailable)

-- What `add` makes of the registry's answer.
unfoldable pub commit_added : Bool → BlockRegistry × AddResult → State → State × BlockMutation
commit_added writes (r, added entry) s =
    commit writes s.registry.entries entry (record s { registry = r })
commit_added writes (r, duplicate existing) s =
    (record s { registry = r }, conflict (some existing))
commit_added writes (r, full limit) s = (record s { registry = r }, conflict none)

unfoldable pub commit_removed :
    Bool → BlockRegistry × Option BlockEntry → State → State × BlockMutation
commit_removed writes (r, none) s = (record s { registry = r }, not_found)
commit_removed writes (r, some entry) s =
    commit writes s.registry.entries entry (record s { registry = r })

-- `expire` of the service: the write fails by a throw, after the registry is restored.
unfoldable pub commit_expired : Bool → BlockRegistry × Bool → State → State
commit_expired writes (r, false) s = record s { registry = r }
commit_expired true (r, true) s = record { registry = r; file = r.entries }
commit_expired false (r, true) s = record s { registry = restore s.registry.entries r }

pub record AddBlockInput : Type 0 where
  pub target : Option BlockTarget  -- the target, if it is valid
  pub ttl_minutes : Option ℕ
  pub reason : String
  pub actor : String

-- `input.ttlMinutes === undefined ? settings.defaultTtlMs : input.ttlMinutes * 60_000`
abbrev pub ttl_of : Option ℕ → ℕ → ℕ
ttl_of none default_ttl_ms = default_ttl_ms
ttl_of (some minutes) default_ttl_ms = minutes * 60000

-- The requests, with the time and whether the write succeeds.
pub data Request : Type 0 where
  add_block : String → AddBlockInput → Request
  remove_block : String → Request
  expire_blocks : Request

module _ (lower : String → String) where
  -- `add` after the check of the target.
  unfoldable pub add_target :
      Option BlockTarget
      → BlockSettings
      → String
      → AddBlockInput
      → ℕ
      → ℕ
      → Bool
      → State
      → State × BlockMutation
  add_target none settings fresh_id input ttl_ms now writes s = (s, bad_request)
  add_target (some target) settings fresh_id input ttl_ms now writes s =
      commit_added writes
        (add lower fresh_id target input.reason input.actor now ttl_ms settings.max_entries
          s.registry)
        s

  unfoldable pub add_checked :
      BlockSettings → String → AddBlockInput → ℕ → Bool → State → State × BlockMutation
  add_checked settings fresh_id input now writes s =
      let ttl_ms = ttl_of input.ttl_minutes settings.default_ttl_ms in
      if ttl_ms == 0 || ltb settings.max_ttl_ms ttl_ms
      then (s, bad_request)
      else add_target input.target settings fresh_id input ttl_ms now writes s

  -- A change, with the settings if the service is ready.
  unfoldable pub handle_ready : Option BlockSettings → ℕ → Bool → Request → State → State
  handle_ready none now writes request s = s
  handle_ready (some settings) now writes (add_block fresh_id input) s =
      (add_checked settings fresh_id input now writes s).0
  handle_ready (some settings) now writes (remove_block id) s =
      (commit_removed writes (remove id s.registry) s).0
  handle_ready (some settings) now writes expire_blocks s =
      commit_expired writes (expire now s.registry) s

  unfoldable pub handle : Option BlockSettings → ℕ → Bool → Request → State → State
  handle settings now writes request s =
      handle_ready (ready settings s.registry) now writes request s
