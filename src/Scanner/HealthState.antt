-- ===== src/Scanner/HealthState.antt =====
-- src/scanner/health-state.ts. The tables are lists in the order of insertion, and each function
-- takes the database and returns it. The probes (`serviceHealthResults`) are an argument, as are
-- the random identifiers of new rows. The result of a query without a row is `none`.
pub mod History
pub mod Compression
pub mod Freshness
use excubitor.Prelude.{
  ℕ, ◌+◌, String, str_eq, List, [], ◌∷◌, ◌++◌, map, Option, none, some, Bool, true, false, not,
  ◌&&◌, leb, if◌then◌else◌, filter, any, length,
}
use excubitor.Prelude.Maps.{lookup}

pub data Reason : Type 0 where
  http : Reason
  tcp : Reason
  cmd : Reason
  process : Reason
  port : Reason
  not_configured : Reason
  failed : Reason

pub record ServiceHealthResult : Type 0 where
  pub ok : Bool
  pub reason : Reason
  pub detail : Option String
  pub reported_version : Option String

-- What the scan reads of a catalog entry.
pub record Service : Type 0 where
  pub code : String
  pub name : String

pub record HealthObservation : Type 0 where
  pub code : String
  pub name : String
  pub ok : Bool
  pub reason : Reason
  pub detail : Option String

-- A row of `service_instances`; the service stands for its id, of which there is one for a code.
pub record Instance : Type 0 where
  pub id : String
  pub service : String
  pub state : String
  pub last_seen_at : Option ℕ
  pub reported_version : Option String
  pub updated_at : ℕ

-- A row of `liveness_history`.
pub record LivenessRow : Type 0 where
  pub instance_id : String
  pub probed_at : ℕ
  pub ok : Bool
  pub reason : Reason
  pub detail : Option String

pub record Database : Type 0 where
  pub services : List String
  pub instances : List Instance
  pub liveness : List LivenessRow

pub record LatestLiveness : Type 0 where
  pub ok : Bool
  pub probed_at : ℕ

-- `a !== b` on Booleans
abbrev pub differ : Bool → Bool → Bool
differ true b = not b
differ false b = b

unfoldable pub should_record_liveness : Option LatestLiveness → Bool → ℕ → ℕ → Bool
should_record_liveness none ok now heartbeat_ms = true
should_record_liveness (some latest) ok now heartbeat_ms =
    if differ latest.ok ok then true else leb (latest.probed_at + heartbeat_ms) now

-- Whether a row of time `t` comes before the best so far in `ORDER BY probed_at DESC, id DESC`.
abbrev pub is_newer : Option LatestLiveness → ℕ → Bool
is_newer none t = true
is_newer (some best) t = leb best.probed_at t

-- `ORDER BY probed_at DESC, id DESC LIMIT 1`, for one instance: the row of the latest time, the
-- last inserted of those.
unfoldable pub latest_row :
    String → Option LatestLiveness → List LivenessRow → Option LatestLiveness
latest_row id best [] = best
latest_row id best (r ∷ rs) =
    let here : LatestLiveness = record { ok = r.ok; probed_at = r.probed_at } in
    latest_row id (if str_eq r.instance_id id && is_newer best r.probed_at then some here else best)
      rs

unfoldable pub read_latest_liveness : Database → String → Option LatestLiveness
read_latest_liveness db id = latest_row id none db.liveness

unfoldable pub has_instance : String → List Instance → Bool
has_instance code [] = false
has_instance code (i ∷ is) = if str_eq i.service code then true else has_instance code is

-- The first statement: an instance for a known service that has none.
unfoldable pub ensure_instance : String → String → ℕ → Database → Database
ensure_instance id code now db =
    let row : Instance = record {
      id = id;
      service = code;
      state = "pending";
      last_seen_at = none;
      reported_version = none;
      updated_at = now;
    } in
    if any (λ s. str_eq s code) db.services && not (has_instance code db.instances)
    then record db { instances = db.instances ++ row ∷ [] }
    else db

-- The second statement, on one row.
unfoldable pub update_instance : String → ServiceHealthResult → ℕ → Instance → Instance
update_instance code result now i =
    if str_eq i.service code
    then record i {
      state = if result.ok then "running" else "stopped";
      last_seen_at = if result.ok then some now else i.last_seen_at;
      reported_version = result.reported_version;
      updated_at = now;
    }
    else i

unfoldable pub update_instances : String → ServiceHealthResult → ℕ → List Instance → List Instance
update_instances code result now [] = []
update_instances code result now (i ∷ is) =
    update_instance code result now i ∷ update_instances code result now is

-- `LIMIT 1` without an order, which may give any row of the service, is taken to give the first; the
-- service has one row if `ensureInstance` alone has made its rows.
unfoldable pub find_instance : String → List Instance → Option String
find_instance code [] = none
find_instance code (i ∷ is) = if str_eq i.service code then some i.id else find_instance code is

-- The end of `markServiceHealth`, for the instance that was found: the row of the history, and
-- whether the state has changed.
unfoldable pub record_liveness : String → ServiceHealthResult → ℕ → ℕ → Database → Database × Bool
record_liveness id result now heartbeat_ms db =
    let latest = read_latest_liveness db id in
    let transition : Bool = elim latest [ none ↦ false | some l ↦ differ l.ok result.ok ] in
    let row : LivenessRow = record {
      instance_id = id;
      probed_at = now;
      ok = result.ok;
      reason = result.reason;
      detail = result.detail;
    } in
    if should_record_liveness latest result.ok now heartbeat_ms
    then (record db { liveness = db.liveness ++ row ∷ [] }, transition)
    else (db, false)

-- `if (!instance) return false`
abbrev pub record_found : Option String → ServiceHealthResult → ℕ → ℕ → Database → Database × Bool
record_found none result now heartbeat_ms db = (db, false)
record_found (some id) result now heartbeat_ms db = record_liveness id result now heartbeat_ms db

-- `markServiceHealth` after the first statement.
unfoldable pub mark_ensured : String → ServiceHealthResult → ℕ → ℕ → Database → Database × Bool
mark_ensured code result now heartbeat_ms db =
    let updated = record db { instances = update_instances code result now db.instances } in
    record_found (find_instance code updated.instances) result now heartbeat_ms updated

unfoldable pub mark_service_health :
    String → String → ServiceHealthResult → ℕ → ℕ → Database → Database × Bool
mark_service_health fresh_id code result now heartbeat_ms db =
    mark_ensured code result now heartbeat_ms (ensure_instance fresh_id code now db)

-- Without the probes' results, which are an argument.
pub record HealthStateSyncResult : Type 0 where
  pub checked : ℕ
  pub running : List String
  pub stopped : List String
  pub observations : List HealthObservation

abbrev pub is_configured : Reason → Bool
is_configured not_configured = false
is_configured _ = true

-- The loop over the catalog: the services with a result that is not `not_configured`.
unfoldable pub observe : List (String × ServiceHealthResult) → List Service → List HealthObservation
observe results [] = []
observe results (svc ∷ services) =
    let rest = observe results services in
    elim (lookup svc.code results) [
      | none ↦ rest
      | some result ↦
          if is_configured result.reason
          then record {
            code = svc.code;
            name = svc.name;
            ok = result.ok;
            reason = result.reason;
            detail = result.detail;
          }
            ∷ rest
          else rest
    ]

-- The transaction: every observed service in turn.
unfoldable pub mark_all :
    (String → String)
    → List (String × ServiceHealthResult)
    → ℕ
    → ℕ
    → List HealthObservation
    → Database
    → Database
mark_all fresh_id results now heartbeat_ms [] db = db
mark_all fresh_id results now heartbeat_ms (o ∷ os) db =
    let next : Database = elim (lookup o.code results) [
      | none ↦ db
      | some result ↦ (mark_service_health (fresh_id o.code) o.code result now heartbeat_ms db).0
    ] in
    mark_all fresh_id results now heartbeat_ms os next

unfoldable pub sync_healthy_service_states :
    (String → String)
    → List (String × ServiceHealthResult)
    → ℕ
    → ℕ
    → List Service
    → Database
    → HealthStateSyncResult × Database
sync_healthy_service_states fresh_id results now heartbeat_ms services db =
    let observations = observe results services in
    let result : HealthStateSyncResult = record {
      checked = length services;
      running = map (λ (o : HealthObservation). o.code) (filter (λ o. o.ok) observations);
      stopped = map (λ (o : HealthObservation). o.code) (filter (λ o. not o.ok) observations);
      observations = observations;
    } in
    (result, mark_all fresh_id results now heartbeat_ms observations db)
