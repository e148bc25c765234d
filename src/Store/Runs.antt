-- ===== src/Store/Runs.antt =====
-- internal/store/store.go: the processes that run, who supervises them, and their traffic.
pub mod Linked
use tubo.Base.{
  ℕ, Bool, not, ◌&&◌, ◌||◌, Option, none, some, List, [], ◌∷◌, Bytes, lit, same, is_empty, bytes_le,
  any, ltb, ◌==◌, if◌then◌else◌, Result, ok, err, ◌>>=◌, ◌>>◌, fail_if, or_fail, find_row,
  upsert_row, delete_rows,
}
use tubo.Store.Cache.{replace}
use tubo.Store.Resources.{order_by}

-- `Run`, a row of `runs`; a pid of 0 stands for any that is not positive.
pub record Run : Type 0 where
  pub primary_ref : Bytes
  pub kind : Bytes
  pub pid : ℕ
  pub process_identity : Bytes
  pub source : Bytes
  pub status : Bytes
  pub peer_id : Bytes
  pub address : Bytes
  pub started_at : ℕ
  pub updated_at : ℕ

-- `Supervisor`, a row of `supervisors`.
pub record Supervisor : Type 0 where
  pub primary_ref : Bytes
  pub manager : Bytes
  pub label : Bytes
  pub unit_path : Bytes
  pub installed_at : ℕ
  pub updated_at : ℕ

-- `RuntimeStats`, a row of `runtime_stats`; a rate is the bits of a float64.
pub record RuntimeStats : Type 0 where
  pub run_ref : Bytes
  pub bytes_in : ℕ
  pub bytes_out : ℕ
  pub rate_in : ℕ
  pub rate_out : ℕ
  pub connected_peers : ℕ
  pub open_connections : ℕ
  pub updated_at : ℕ

-- `RuntimePeer`, a row of `runtime_peers`, with the addresses that the column codes.
pub record RuntimePeer : Type 0 where
  pub run_ref : Bytes
  pub peer_id : Bytes
  pub addresses : List Bytes
  pub last_seen : ℕ

pub record Runs : Type 0 where
  pub available : Bool
  pub runs : List Run
  pub supervisors : List Supervisor
  pub stats : List RuntimeStats
  pub peers : List RuntimePeer

pub data RunError : Type 0 where
  run_exists invalid_source process_not_found : RunError
  supervisor_incomplete unsupported_manager : RunError
  database_failed constraint_failed run_not_found : RunError

-- The primary keys.
abbrev pub run_key : Run → List Bytes
run_key r = r.primary_ref ∷ []

abbrev pub supervisor_key : Supervisor → List Bytes
supervisor_key s = s.primary_ref ∷ []

abbrev pub stats_key : RuntimeStats → List Bytes
stats_key s = s.run_ref ∷ []

abbrev pub find_run : Bytes → Runs → Option Run
find_run ref db = find_row run_key (ref ∷ []) db.runs

abbrev pub find_stats : Bytes → Runs → Option RuntimeStats
find_stats ref db = find_row stats_key (ref ∷ []) db.stats

abbrev is_none : {A : Type 0} → Option A → Bool
is_none none = Bool.true
is_none (some _) = Bool.false

-- `ReserveRun`; an insert that fails, for whatever reason, is reported as a conflict.
unfoldable pub reserve_run : Bytes → Bytes → ℕ → Runs → Result RunError Runs
reserve_run ref kind now db = do
  fail_if (not db.available || not (is_none (find_run ref db))) run_exists
  ok (record db {
    runs =
        record {
          primary_ref = ref;
          kind = kind;
          pid = 0;
          process_identity = [];
          source = lit "foreground";
          status = lit "starting";
          peer_id = [];
          address = [];
          started_at = now;
          updated_at = now;
        }
        ∷ db.runs;
  })

abbrev pub default_source : Bytes → Bytes
default_source source = if is_empty source then lit "foreground" else source

abbrev known_source : Bytes → Bool
known_source source =
    same source (lit "foreground")
    || same source (lit "detached")
    || same source (lit "launchd")
    || same source (lit "systemd")

-- The identity that `ProcessIdentity` captures, where the run has a process and none is given.
unfoldable pub captured_identity : (ℕ → Option Bytes) → Run → Result RunError Bytes
captured_identity identity_of v =
    if ltb 0 v.pid && is_empty v.process_identity
    then or_fail (identity_of v.pid) process_not_found
    else ok v.process_identity

-- The row that `PutRun` writes.
abbrev pub stored_run : Run → Bytes → ℕ → Run
stored_run v identity now = record v {
  process_identity = identity;
  source = default_source v.source;
  started_at = if v.started_at == 0 then now else v.started_at;
  updated_at = now;
}

-- `PutRun`; `identity_of` is `ProcessIdentity`, what `ps` prints of a process.
unfoldable pub put_run : (ℕ → Option Bytes) → Run → ℕ → Runs → Result RunError Runs
put_run identity_of v now db = do
  fail_if (not (known_source (default_source v.source))) invalid_source
  identity ← captured_identity identity_of v
  fail_if (not db.available) database_failed
  ok (record db { runs = upsert_row run_key replace (stored_run v identity now) db.runs })

-- `Run` and `Runs`, the latter in the order of the references.
unfoldable pub run : Bytes → Runs → Result RunError Run
run ref db = do fail_if (not db.available) database_failed; or_fail (find_run ref db) run_not_found

unfoldable pub all_runs : Runs → Result RunError (List Run)
all_runs db = do
  fail_if (not db.available) database_failed
  ok (order_by (λ (a b : Run). bytes_le a.primary_ref b.primary_ref) db.runs)

-- The traffic of a run goes with it, `ON DELETE CASCADE`.
abbrev pub deleted_run : Bytes → Runs → Runs
deleted_run ref db = record db {
  runs = delete_rows (λ (r : Run). same r.primary_ref ref) db.runs;
  stats = delete_rows (λ (s : RuntimeStats). same s.run_ref ref) db.stats;
  peers = delete_rows (λ (p : RuntimePeer). same p.run_ref ref) db.peers;
}

-- `DeleteRun`.
unfoldable pub delete_run : Bytes → Runs → Result RunError Runs
delete_run ref db = do fail_if (not db.available) database_failed; ok (deleted_run ref db)

-- `ON CONFLICT … DO UPDATE` of the columns other than `installed_at`.
abbrev pub keep_installed : Supervisor → Supervisor → Supervisor
keep_installed old new = record new { installed_at = old.installed_at }

-- `PutSupervisor`; a label is of one row.
unfoldable pub put_supervisor : Supervisor → ℕ → Runs → Result RunError Runs
put_supervisor v now db = do
  fail_if (is_empty v.primary_ref || is_empty v.manager || is_empty v.label || is_empty v.unit_path)
      supervisor_incomplete
  fail_if (not (same v.manager (lit "launchd")) && not (same v.manager (lit "systemd")))
      unsupported_manager
  fail_if (not db.available) database_failed
  fail_if
      (any (λ (s : Supervisor). same s.label v.label && not (same s.primary_ref v.primary_ref))
        db.supervisors)
      constraint_failed
  ok (record db {
    supervisors =
        upsert_row supervisor_key keep_installed
          (record v {
            installed_at = if v.installed_at == 0 then now else v.installed_at;
            updated_at = now;
          })
          db.supervisors;
  })

-- `Supervisor`.
unfoldable pub supervisor : Bytes → Runs → Result RunError Supervisor
supervisor ref db = do
  fail_if (not db.available) database_failed
  or_fail (find_row supervisor_key (ref ∷ []) db.supervisors) run_not_found

-- `DeleteSupervisor`.
unfoldable pub delete_supervisor : Bytes → Runs → Result RunError Runs
delete_supervisor ref db = do
  fail_if (not db.available) database_failed
  ok (record db {
    supervisors = delete_rows (λ (s : Supervisor). same s.primary_ref ref) db.supervisors;
  })

-- The loop of inserts: a peer comes once for a run.
unfoldable pub insert_peers :
    Bytes → ℕ → List RuntimePeer → List RuntimePeer → Result RunError (List RuntimePeer)
insert_peers ref now [] rows = ok rows
insert_peers ref now (p ∷ ps) rows =
    let rest = insert_peers ref now ps (record p { run_ref = ref; last_seen = now } ∷ rows) in
    if any (λ (q : RuntimePeer). same q.run_ref ref && same q.peer_id p.peer_id) rows
    then err constraint_failed
    else rest

-- `PutRuntimeTelemetry`; its rows refer to a run that is there.
unfoldable pub put_runtime_telemetry :
    RuntimeStats → List RuntimePeer → ℕ → Runs → Result RunError Runs
put_runtime_telemetry stats peers now db = do
  fail_if (not db.available) database_failed
  fail_if (is_none (find_run stats.run_ref db)) constraint_failed
  inserted ←
      insert_peers stats.run_ref now peers
        (delete_rows (λ (p : RuntimePeer). same p.run_ref stats.run_ref) db.peers)
  ok (record db {
    stats = upsert_row stats_key replace (record stats { updated_at = now }) db.stats;
    peers = inserted;
  })

-- `RuntimeStats`.
unfoldable pub runtime_stats : Bytes → Runs → Result RunError RuntimeStats
runtime_stats ref db = do
  fail_if (not db.available) database_failed
  or_fail (find_stats ref db) run_not_found

-- `RuntimePeers`, `ORDER BY peer_id,run_ref`.
unfoldable pub runtime_peers : Runs → Result RunError (List RuntimePeer)
runtime_peers db = do
  fail_if (not db.available) database_failed
  ok (
      order_by
        (λ (a b : RuntimePeer).
          if same a.peer_id b.peer_id
          then bytes_le a.run_ref b.run_ref
          else bytes_le a.peer_id b.peer_id)
        db.peers)

-- `ClearRuntimePeers`.
unfoldable pub clear_runtime_peers : Bytes → Runs → Result RunError Runs
clear_runtime_peers ref db = do
  fail_if (not db.available) database_failed
  ok (record db { peers = delete_rows (λ (p : RuntimePeer). same p.run_ref ref) db.peers })
