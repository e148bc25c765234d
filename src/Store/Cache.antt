-- ===== src/Store/Cache.antt =====
-- internal/store/store.go: the tables of discovered and announced records, with the leases that fence
-- their refresh. A stored time is its number of nanoseconds, and is compared as Store/Stamp says.
use tubo.Base.{merged, none, some, ◌≡◌, refl, ℕ, Bool, Option, List, [], ◌∷◌, Bytes, find_row}

-- `scope_sync_leases`.
pub record LeaseRow : Type 0 where
  pub scope : Bytes
  pub holder_ref : Bytes
  pub process_identity : Bytes
  pub token : Bytes
  pub acquired_at : ℕ
  pub renewed_at : ℕ
  pub expires_at : ℕ

-- `records`, a row of which is also the Go type `Record`.
pub record Record : Type 0 where
  pub scope : Bytes
  pub pipe_id : Bytes
  pub name : Bytes
  pub payload : Bytes
  pub expires_at : ℕ
  pub sequence : ℕ
  pub discovered : Bool

-- `authority_snapshots`.
pub record SnapshotRow : Type 0 where
  pub scope : Bytes
  pub generation : ℕ
  pub high_water : ℕ

-- `scope_freshness`; a time is absent where the text is empty.
pub record Freshness : Type 0 where
  pub scope : Bytes
  pub last_attempt : Option ℕ
  pub last_success : Option ℕ
  pub source : Bytes
  pub complete : Bool
  pub error_class : Bytes
  pub next_retry : Option ℕ
  pub generation : ℕ
  pub high_water : ℕ
  pub digest : Bytes

-- The four tables. A statement or a transaction fails where the database is not available.
pub record Cache : Type 0 where
  pub available : Bool
  pub leases : List LeaseRow
  pub records : List Record
  pub snapshots : List SnapshotRow
  pub freshness : List Freshness

pub data CacheError : Type 0 where
  invalid_lease_identity invalid_ttl invalid_lease random_failed lease_lost : CacheError
  database_failed : CacheError
  invalid_record_index invalid_record_bounds record_expired : CacheError
  replayed_sequence conflicting_record : CacheError
  counter_exhausted invalid_limit not_initialized invalid_metadata : CacheError
  invalid_failure invalid_snapshot invalid_snapshot_record duplicate_record : CacheError
  snapshot_rollback snapshot_ambiguous : CacheError
  record_not_found record_ambiguous : CacheError

-- The primary keys.
abbrev pub lease_key : LeaseRow → List Bytes
lease_key r = r.scope ∷ []

abbrev pub record_key : Record → List Bytes
record_key r = r.scope ∷ r.pipe_id ∷ []

abbrev pub snapshot_key : SnapshotRow → List Bytes
snapshot_key r = r.scope ∷ []

abbrev pub freshness_key : Freshness → List Bytes
freshness_key r = r.scope ∷ []

abbrev pub find_lease : Bytes → Cache → Option LeaseRow
find_lease scope c = find_row lease_key (scope ∷ []) c.leases

abbrev pub find_record : Bytes → Bytes → Cache → Option Record
find_record scope pipe_id c = find_row record_key (scope ∷ pipe_id ∷ []) c.records

abbrev pub find_snapshot : Bytes → Cache → Option SnapshotRow
find_snapshot scope c = find_row snapshot_key (scope ∷ []) c.snapshots

abbrev pub find_freshness : Bytes → Cache → Option Freshness
find_freshness scope c = find_row freshness_key (scope ∷ []) c.freshness

-- `ON CONFLICT … DO UPDATE` of every column.
abbrev pub replace : {R : Type 0} → R → R → R
replace old new = new

pub merged-replace : {R : Type 0} (v : R) (o : Option R) → merged replace v o ≡ v
merged-replace v none = refl
merged-replace v (some r) = refl
