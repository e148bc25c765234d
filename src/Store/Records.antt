-- ===== src/Store/Records.antt =====
-- internal/store/store.go: records that are announced here, and those that a pinned authority's
-- snapshot brings.
use tubo.Base.{
  ℕ, ◌+◌, Bool, true, false, not, ◌&&◌, ◌||◌, Option, none, some, List, [], ◌∷◌, Bytes, lit, same,
  bytes_le, is_empty, is_blank, length, take, any, ltb, leb, ◌==◌, if◌then◌else◌, Result, ok, err,
  ◌>>=◌, ◌>>◌, fail_if, or_fail, upsert_row, delete_rows,
}
use tubo.Store.Cache.{
  invalid_metadata, record_key, conflicting_record, record_expired, counter_exhausted,
  invalid_record_bounds, not_initialized, replayed_sequence, database_failed, find_record,
  find_snapshot, invalid_limit, invalid_record_index, replace, CacheError, snapshot_key, Cache,
  Record, SnapshotRow,
}
use tubo.Domain.Ref.{name_matches, cut_slash}
use tubo.Store.Stamp.{text_le}

abbrev pub snapshot_source_pinned_authority : Bytes
snapshot_source_pinned_authority = lit "pinned_authority"

abbrev pub max_snapshot_records : ℕ
max_snapshot_records = 256

-- 2^63 - 1: what an INTEGER column holds.
abbrev pub max_counter : ℕ
max_counter = 9_223_372_036_854_775_807

-- `AuthoritativeSnapshot`.
pub record AuthoritativeSnapshot : Type 0 where
  pub source : Bytes
  pub complete : Bool
  pub generation : ℕ
  pub high_water : ℕ
  pub digest : Bytes
  pub records : List Record

-- `strings.Split(scope, "/")` has two parts, and they are a scope.
unfoldable pub valid_scope_text : Bytes → Bool
valid_scope_text scope = elim (cut_slash scope) [
  | none ↦ false
  | some (cluster, namespace) ↦
      not (any (λ c. c == b'/') namespace) && name_matches cluster && name_matches namespace
]

-- `validateStoredRecord`.
unfoldable pub validate_stored_record : Record → ℕ → Result CacheError (Unit {0})
validate_stored_record v now = do
  fail_if
      (not (valid_scope_text v.scope)
        || is_blank v.pipe_id
        || ltb 8192 (length v.pipe_id)
        || ltb 8192 (length v.name))
      invalid_record_index
  fail_if
      (is_empty v.payload
        || ltb 65536 (length v.payload)
        || v.sequence == 0
        || ltb max_counter v.sequence)
      invalid_record_bounds
  fail_if (not (ltb now v.expires_at)) record_expired

abbrev pub write_record : Record → Cache → Cache
write_record v c = record c { records = upsert_row record_key replace v c.records }

-- `putRecordTx`.
unfoldable pub put_record_tx : Record → ℕ → Cache → Result CacheError Cache
put_record_tx v now c = do
  validate_stored_record v now
  elim (find_record v.scope v.pipe_id c) [
    | none ↦ ok (write_record v c)
    | some r ↦
        if ltb v.sequence r.sequence
        then err replayed_sequence
        else if v.sequence == r.sequence
        then (if same r.payload v.payload then ok c else err conflicting_record)
        else ok (write_record v c)
  ]

-- Whether a local or authority row owns the key.
abbrev pub owned_locally : Option Record → Bool
owned_locally none = false
owned_locally (some r) = not r.discovered

-- `putDiscoveredRecordTx`.
unfoldable pub put_discovered_record_tx : Record → ℕ → Cache → Result CacheError Cache
put_discovered_record_tx v now c =
    if owned_locally (find_record v.scope v.pipe_id c)
    then ok c
    else put_record_tx (record v { discovered = true }) now c

-- `PutRecord`.
unfoldable pub put_record : Record → ℕ → Cache → Result CacheError Cache
put_record v now c = do fail_if (not c.available) database_failed; put_record_tx v now c

-- `EnsureAuthoritySnapshot`.
abbrev pub keep_old : SnapshotRow → SnapshotRow → SnapshotRow
keep_old old new = record new { generation = old.generation; high_water = old.high_water }

unfoldable pub ensure_authority_snapshot : Bytes → Cache → Result CacheError Cache
ensure_authority_snapshot scope c = do
  fail_if (not c.available) database_failed
  ok (record c {
    snapshots =
        upsert_row snapshot_key keep_old (record { scope = scope; generation = 1; high_water = 1 })
          c.snapshots;
  })

abbrev pub write_snapshot : SnapshotRow → Cache → Cache
write_snapshot s c = record c { snapshots = upsert_row snapshot_key replace s c.snapshots }

-- `advanceAuthoritySnapshotTx`.
unfoldable pub advance_authority_snapshot_tx : Bytes → Cache → Result CacheError Cache
advance_authority_snapshot_tx scope c = elim (find_snapshot scope c) [
  | none ↦ ok (write_snapshot (record { scope = scope; generation = 1; high_water = 1 }) c)
  | some s ↦ do
    fail_if (s.generation == max_counter || s.high_water == max_counter) counter_exhausted
    ok (
        write_snapshot
          (record { scope = scope; generation = s.generation + 1; high_water = s.high_water + 1 })
          c)
]

-- `PutAuthoritativeRecord`.
unfoldable pub put_authoritative_record : Record → ℕ → Cache → Result CacheError Cache
put_authoritative_record v now c = do
  fail_if (not c.available) database_failed
  written ← put_record_tx v now c
  advance_authority_snapshot_tx v.scope written

-- `scope=? AND discovered=0 AND expires_at<=?`.
abbrev pub outdated_local : Bytes → ℕ → Record → Bool
outdated_local scope now r = same r.scope scope && not r.discovered && text_le r.expires_at now

-- `scope=? AND discovered=0 AND expires_at>?`.
abbrev pub live_local : Bytes → ℕ → Record → Bool
live_local scope now r = same r.scope scope && not r.discovered && not (text_le r.expires_at now)

unfoldable pub select_rows : (Record → Bool) → List Record → List Record
select_rows test [] = []
select_rows test (r ∷ rs) = let rest = select_rows test rs in if test r then r ∷ rest else rest

-- `ORDER BY name,pipe_id`.
abbrev pub comes_before : Record → Record → Bool
comes_before a b =
    if same a.name b.name then bytes_le a.pipe_id b.pipe_id else bytes_le a.name b.name

unfoldable pub insert_by_name : Record → List Record → List Record
insert_by_name v [] = v ∷ []
insert_by_name v (r ∷ rs) =
    let rest = insert_by_name v rs in if comes_before v r then v ∷ r ∷ rs else r ∷ rest

unfoldable pub order_by_name : List Record → List Record
order_by_name [] = []
order_by_name (r ∷ rs) = insert_by_name r (order_by_name rs)

-- The answer of `AuthoritySnapshot`.
pub record SnapshotAnswer : Type 0 where
  pub records : List Record
  pub generation : ℕ
  pub high_water : ℕ
  pub complete : Bool

-- What `AuthoritySnapshot` deletes first, and what that does to the counters.
unfoldable pub prune_local : Bytes → ℕ → Cache → Result CacheError Cache
prune_local scope now c =
    let kept = record c { records = delete_rows (outdated_local scope now) c.records } in
    if any (outdated_local scope now) c.records
    then advance_authority_snapshot_tx scope kept
    else ok kept

-- `AuthoritySnapshot`; a limit of 0 stands for any that is not positive.
unfoldable pub authority_snapshot :
    Bytes → ℕ → ℕ → Cache → Result CacheError (SnapshotAnswer × Cache)
authority_snapshot scope limit now c = do
  fail_if (limit == 0 || ltb max_snapshot_records limit) invalid_limit
  fail_if (not c.available) database_failed
  pruned ← prune_local scope now c
  meta ← or_fail (find_snapshot scope pruned) not_initialized
  fail_if (meta.generation == 0 || meta.high_water == 0) invalid_metadata
  let found = order_by_name (select_rows (live_local scope now) pruned.records)
  ok (
    record {
      records = take limit found;
      generation = meta.generation;
      high_water = meta.high_water;
      complete = leb (length found) limit;
    },
    pruned,
  )
