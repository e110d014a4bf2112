-- ===== src/Netwatch/BlockRegistry.antt =====
-- src/netwatch/block-registry.ts: `BlockRegistry`. The text of the file stands for the entries that
-- it holds: `load` gets what the schema makes of it. `toLowerCase` and the random id are arguments.
pub mod Unique
use excubitor.Prelude.{
  ℕ, ◌+◌, String, str_eq, List, [], ◌∷◌, ◌++◌, Option, none, some, Bool, true, false, not, ◌&&◌,
  ltb, leb, ◌==◌, if◌then◌else◌, filter, length,
}
use excubitor.Prelude.Sorting.{sort_by}

pub data BlockKind : Type 0 where
  address program : BlockKind

pub record BlockTarget : Type 0 where
  pub kind : BlockKind
  pub value : String

pub record BlockEntry : Type 0 where
  pub id : String
  pub kind : BlockKind
  pub value : String
  pub reason : String
  pub created_by : String
  pub created_at_ms : ℕ
  pub expires_at_ms : ℕ

-- The reason of a failure, if the registry has failed.
pub record BlockRegistry : Type 0 where
  pub entries : List BlockEntry
  pub failed : Option String

-- No file, a file that the schema accepts, or one that it does not.
pub data FileText : Type 0 where
  missing : FileText
  blocks : List BlockEntry → FileText
  unreadable : String → FileText

unfoldable pub load : FileText → BlockRegistry
load missing = record { entries = []; failed = none }
load (blocks entries) = record { entries = entries; failed = none }
load (unreadable reason) = record { entries = []; failed = some reason }

unfoldable pub fail : String → BlockRegistry
fail reason = record { entries = []; failed = some reason }

abbrev pub is_active : ℕ → BlockEntry → Bool
is_active now_ms entry = ltb now_ms entry.expires_at_ms

unfoldable pub list : ℕ → BlockRegistry → List BlockEntry
list now_ms r =
    sort_by (λ (entry : BlockEntry). entry.expires_at_ms) (filter (is_active now_ms) r.entries)

abbrev pub same_kind : BlockKind → BlockKind → Bool
same_kind address address = true
same_kind program program = true
same_kind _ _ = false

pub data AddResult : Type 0 where
  added : BlockEntry → AddResult
  duplicate : BlockEntry → AddResult
  full : ℕ → AddResult

-- `this.entries.find((entry) => entry.id === id)`
unfoldable pub find_id : String → List BlockEntry → Option BlockEntry
find_id id [] = none
find_id id (e ∷ es) = if str_eq e.id id then some e else find_id id es

-- `remove` with the entry that was found.
unfoldable pub remove_found :
    Option BlockEntry → String → BlockRegistry → BlockRegistry × Option BlockEntry
remove_found none id r = (r, none)
remove_found (some e) id r =
    (record r { entries = filter (λ x. not (str_eq x.id id)) r.entries }, some e)

unfoldable pub remove : String → BlockRegistry → BlockRegistry × Option BlockEntry
remove id r = remove_found (find_id id r.entries) id r

unfoldable pub expire : ℕ → BlockRegistry → BlockRegistry × Bool
expire now_ms r =
    let kept = filter (is_active now_ms) r.entries in
    (record r { entries = kept }, not (length kept == length r.entries))

unfoldable pub restore : List BlockEntry → BlockRegistry → BlockRegistry
restore entries r = record r { entries = entries }

-- `add` with the existing entry that was found.
unfoldable pub add_entry :
    Option BlockEntry → ℕ → List BlockEntry → BlockEntry → BlockRegistry → BlockRegistry × AddResult
add_entry (some existing) max_entries active entry r = (r, duplicate existing)
add_entry none max_entries active entry r =
    if leb max_entries (length active)
    then (r, full max_entries)
    else (record r { entries = active ++ entry ∷ [] }, added entry)

module _ (lower : String → String) where
  unfoldable pub same : BlockKind → String → BlockEntry → Bool
  same kind value entry = same_kind entry.kind kind && str_eq (lower entry.value) (lower value)

  unfoldable pub find_same : BlockTarget → List BlockEntry → Option BlockEntry
  find_same target [] = none
  find_same target (e ∷ es) =
      if same target.kind target.value e then some e else find_same target es

  unfoldable pub add :
      String → BlockTarget → String → String → ℕ → ℕ → ℕ → BlockRegistry → BlockRegistry × AddResult
  add fresh_id target reason created_by now_ms ttl_ms max_entries r =
      let active = list now_ms r in
      let entry : BlockEntry = record {
        id = fresh_id;
        kind = target.kind;
        value = target.value;
        reason = reason;
        created_by = created_by;
        created_at_ms = now_ms;
        expires_at_ms = now_ms + ttl_ms;
      } in
      add_entry (find_same target active) max_entries active entry r
