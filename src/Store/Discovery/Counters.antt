-- ===== src/Store/Discovery/Counters.antt =====
-- The counters of internal/store/store.go: what an authority serves, and what was last seen of it.
pub mod Monotone
use tubo.Base.{ℕ, ◌≤◌, ◌≡◌, Option, none, some, Bytes, ok}
use tubo.Store.Cache.{
  LeaseRow, find_freshness, find_snapshot, Cache, Freshness, Record, SnapshotRow,
}
use tubo.Store.Discovery.{prune_expired_records, record_snapshot_failure, reconcile_snapshot}
use tubo.Store.Records.{
  AuthoritativeSnapshot, authority_snapshot, SnapshotAnswer, ensure_authority_snapshot,
  put_authoritative_record, put_record,
}

abbrev pub served_generation : Option SnapshotRow → ℕ
served_generation none = 0
served_generation (some s) = s.generation

abbrev pub served_high_water : Option SnapshotRow → ℕ
served_high_water none = 0
served_high_water (some s) = s.high_water

abbrev pub seen_generation : Option Freshness → ℕ
seen_generation none = 0
seen_generation (some f) = f.generation

abbrev pub seen_high_water : Option Freshness → ℕ
seen_high_water none = 0
seen_high_water (some f) = f.high_water

-- The calls that change the records, or the counters of what is served and of what was seen.
pub data CacheCall (c : Cache) : Cache → Type 0 where
  puts : {c' : Cache} (v : Record) (now : ℕ) → put_record v now c ≡ ok c' → CacheCall c c'
  announces :
      {c' : Cache} (v : Record) (now : ℕ)
      → put_authoritative_record v now c ≡ ok c'
      → CacheCall c c'
  prepares :
      {c' : Cache} (scope : Bytes) → ensure_authority_snapshot scope c ≡ ok c' → CacheCall c c'
  serves :
      {c' : Cache} (scope : Bytes) (limit now : ℕ) (answer : SnapshotAnswer)
      → authority_snapshot scope limit now c ≡ ok (answer, c')
      → CacheCall c c'
  reconciles :
      {c' : Cache} (scope : Bytes) (s : AuthoritativeSnapshot) (lease : Option LeaseRow) (now : ℕ)
      → reconcile_snapshot scope s lease now c ≡ ok c'
      → CacheCall c c'
  records_failure :
      {c' : Cache} (scope source error_class : Bytes) (retry : Option ℕ) (lease : Option LeaseRow)
      (now : ℕ)
      → record_snapshot_failure scope source error_class retry lease now c ≡ ok c'
      → CacheCall c c'
  prunes : {c' : Cache} (now : ℕ) → prune_expired_records now c ≡ ok c' → CacheCall c c'

pub data CacheHistory (c : Cache) : Cache → Type 0 where
  unchanged : CacheHistory c c
  then_calls : {a b : Cache} → CacheHistory c a → CacheCall a b → CacheHistory c b

abbrev pub NoneFalls : Bytes → Cache → Cache → Type 0
NoneFalls scope a b =
    (served_generation (find_snapshot scope a) ≤ served_generation (find_snapshot scope b))
    × (served_high_water (find_snapshot scope a) ≤ served_high_water (find_snapshot scope b))
    × (seen_generation (find_freshness scope a) ≤ seen_generation (find_freshness scope b))
    × (seen_high_water (find_freshness scope a) ≤ seen_high_water (find_freshness scope b))
