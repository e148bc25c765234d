-- ===== src/Store/Discovery.antt =====
-- internal/store/store.go: the snapshot of a pinned authority replaces what was discovered before, and
-- the queries over records.
pub mod Members
pub mod Written
pub mod Counters
pub mod Placed
pub mod Deleted
pub mod Replaced
use tubo.Base.{
  ℕ, Bool, true, false, not, ◌&&◌, ◌||◌, Option, none, some, List, [], ◌∷◌, map, Bytes, same,
  is_empty, contains_string, length, ltb, ◌==◌, if◌then◌else◌, Result, ok, err, ◌>>=◌, ◌>>◌,
  fail_if, upsert_row, delete_rows,
}
use tubo.Store.Cache.{
  invalid_snapshot, duplicate_record, find_freshness, invalid_failure, record_ambiguous,
  snapshot_ambiguous, database_failed, find_record, invalid_snapshot_record, record_not_found,
  replace, snapshot_rollback, CacheError, freshness_key, Cache, Freshness, LeaseRow, Record,
}
use tubo.Store.Records.{
  max_snapshot_records, order_by_name, put_discovered_record_tx, select_rows,
  snapshot_source_pinned_authority, validate_stored_record, AuthoritativeSnapshot,
}
use tubo.Store.Leases.{lease_current}
use tubo.Store.Stamp.{text_le}

-- The first loop of `reconcileAuthoritativeSnapshotOnce`, over the ids seen so far.
unfoldable pub check_members : Bytes → List Bytes → List Record → Result CacheError (Unit {0})
check_members scope seen [] = ok tt
check_members scope seen (r ∷ rs) =
    let rest = check_members scope (r.pipe_id ∷ seen) rs in
    do
      fail_if (not (same r.scope scope)) invalid_snapshot_record
      fail_if (contains_string r.pipe_id seen) duplicate_record
      rest

-- Its second loop.
unfoldable pub validate_members : ℕ → List Record → Result CacheError (Unit {0})
validate_members now [] = ok tt
validate_members now (r ∷ rs) =
    let rest = validate_members now rs in do validate_stored_record r now; rest

-- Its third loop: the records are written one by one.
unfoldable pub put_members : ℕ → List Record → Cache → Result CacheError Cache
put_members now [] c = ok c
put_members now (r ∷ rs) c = put_discovered_record_tx r now c >>= λ next. put_members now rs next

-- What the snapshot's own fields must be.
unfoldable pub check_snapshot : AuthoritativeSnapshot → Result CacheError (Unit {0})
check_snapshot s =
    fail_if
      (not (same s.source snapshot_source_pinned_authority)
        || not s.complete
        || s.generation == 0
        || s.high_water == 0
        || not (length s.digest == 64)
        || ltb max_snapshot_records (length s.records))
      invalid_snapshot

-- Neither counter falls, and one generation has one digest and one high water.
unfoldable pub check_order : AuthoritativeSnapshot → Option Freshness → Result CacheError (Unit {0})
check_order s none = ok tt
check_order s (some f) = do
  fail_if (ltb s.generation f.generation || ltb s.high_water f.high_water) snapshot_rollback
  fail_if
      (s.generation == f.generation
        && not (is_empty f.digest)
        && (not (same s.digest f.digest) || not (s.high_water == f.high_water)))
      snapshot_ambiguous

-- `scope=? AND discovered=1 AND pipe_id NOT IN (…)`; of an empty snapshot, every discovered row.
abbrev pub outside_snapshot : Bytes → List Record → Record → Bool
outside_snapshot scope members r =
    same r.scope scope
    && r.discovered
    && not (contains_string r.pipe_id (map (λ m. m.pipe_id) members))

-- `scope=? AND discovered=1 AND expires_at<=?`.
abbrev pub outdated_discovered : Bytes → ℕ → Record → Bool
outdated_discovered scope now r = same r.scope scope && r.discovered && text_le r.expires_at now

unfoldable pub delete_outside : Bytes → List Record → ℕ → Cache → Cache
delete_outside scope members now c = record c {
  records =
      delete_rows (outdated_discovered scope now)
        (delete_rows (outside_snapshot scope members) c.records);
}

abbrev pub write_freshness : Bytes → AuthoritativeSnapshot → ℕ → Cache → Cache
write_freshness scope s now c = record c {
  freshness =
      upsert_row freshness_key replace
        (record {
          scope = scope;
          last_attempt = some now;
          last_success = some now;
          source = s.source;
          complete = true;
          error_class = [];
          next_retry = none;
          generation = s.generation;
          high_water = s.high_water;
          digest = s.digest;
        })
        c.freshness;
}

-- The fence, where a lease is given.
abbrev pub check_fence : Option LeaseRow → ℕ → Cache → Result CacheError (Unit {0})
check_fence none now c = ok tt
check_fence (some l) now c = lease_current l now c

-- `reconcileAuthoritativeSnapshotOnce`.
unfoldable pub reconcile_snapshot :
    Bytes → AuthoritativeSnapshot → Option LeaseRow → ℕ → Cache → Result CacheError Cache
reconcile_snapshot scope s lease now c = do
  check_snapshot s
  check_members scope [] s.records
  fail_if (not c.available) database_failed
  validate_members now s.records
  check_fence lease now c
  check_order s (find_freshness scope c)
  written ← put_members now s.records c
  ok (write_freshness scope s now (delete_outside scope s.records now written))

-- `ON CONFLICT(scope) DO UPDATE` of a failure: the counters, the digest and the last success stay.
abbrev pub keep_counters : Freshness → Freshness → Freshness
keep_counters old new = record old {
  scope = new.scope;
  last_attempt = new.last_attempt;
  source = new.source;
  complete = false;
  error_class = new.error_class;
  next_retry = new.next_retry;
}

-- `recordSnapshotFailure`.
unfoldable pub record_snapshot_failure :
    Bytes → Bytes → Bytes → Option ℕ → Option LeaseRow → ℕ → Cache → Result CacheError Cache
record_snapshot_failure scope source error_class next_retry lease now c = do
  fail_if (not (same source snapshot_source_pinned_authority) || is_empty error_class)
      invalid_failure
  fail_if (not c.available) database_failed
  check_fence lease now c
  ok (record c {
    freshness =
        upsert_row freshness_key keep_counters
          (record {
            scope = scope;
            last_attempt = some now;
            last_success = none;
            source = source;
            complete = false;
            error_class = error_class;
            next_retry = next_retry;
            generation = 0;
            high_water = 0;
            digest = [];
          })
          c.freshness;
  })

-- `PruneExpiredRecords`.
unfoldable pub prune_expired_records : ℕ → Cache → Result CacheError Cache
prune_expired_records now c = do
  fail_if (not c.available) database_failed
  ok (record c { records = delete_rows (λ r. r.discovered && text_le r.expires_at now) c.records })

-- `Records`: what is pruned at `now` stays pruned, and the rows are those that live at `later`.
unfoldable pub records_in : Bytes → ℕ → ℕ → Cache → Result CacheError (List Record × Cache)
records_in scope now later c = do
  pruned ← prune_expired_records now c
  ok (
    order_by_name
        (select_rows (λ r. same r.scope scope && not (text_le r.expires_at later)) pruned.records),
    pruned,
  )

abbrev pub only_record : List Record → Result CacheError Record
only_record [] = err record_not_found
only_record (r ∷ []) = ok r
only_record (r ∷ _ ∷ _) = err record_ambiguous

-- `Record`; what is pruned stays pruned on an error too.
unfoldable pub record_of_pipe : Bytes → ℕ → ℕ → Cache → Result CacheError Record × Cache
record_of_pipe pipe_id now later c = elim (prune_expired_records now c) [
  | err e ↦ (err e, c)
  | ok pruned ↦ (
    only_record (
        select_rows (λ r. same r.pipe_id pipe_id && not (text_le r.expires_at later))
          pruned.records),
    pruned,
  )
]

-- `RecordSequence`.
unfoldable pub record_sequence : Bytes → Bytes → Cache → Result CacheError ℕ
record_sequence scope pipe_id c = do
  fail_if (not c.available) database_failed
  ok (elim (find_record scope pipe_id c) [ none ↦ 0 | some r ↦ r.sequence ])

abbrev pub live_record : ℕ → Option Record → Result CacheError Record
live_record later none = err record_not_found
live_record later (some r) = if text_le r.expires_at later then err record_not_found else ok r

-- `RecordInScope`; what is pruned stays pruned on an error too.
unfoldable pub record_in_scope : Bytes → Bytes → ℕ → ℕ → Cache → Result CacheError Record × Cache
record_in_scope scope pipe_id now later c = elim (prune_expired_records now c) [
  | err e ↦ (err e, c)
  | ok pruned ↦ (live_record later (find_record scope pipe_id pruned), pruned)
]
