-- ===== src/Store/Connections.antt =====
-- internal/store/exact_connection.go: accepted remote pipes, and the cache of their access leases.
use tubo.Base.{
  ℕ, Bool, not, ◌||◌, Option, none, some, List, [], ◌∷◌, Bytes, same, is_empty, ltb, ◌==◌,
  if◌then◌else◌, Result, ok, err, ◌>>=◌, ◌>>◌, fail_if, or_fail, map_err, find_row, upsert_row,
  delete_rows,
}
use tubo.Domain.Model.{RemotePipeBinding, AccessLeaseCache, SpecError, validate_remote}
use tubo.Store.Cache.{replace}

-- `remote_pipe_bindings` and `exact_lease_cache`, whose rows are the Go values.
pub record Connections : Type 0 where
  pub available : Bool
  pub bindings : List RemotePipeBinding
  pub lease_cache : List AccessLeaseCache

pub data ConnectionError : Type 0 where
  database_failed not_found invalid_cache corrupt_cache : ConnectionError
  invalid_binding corrupt_binding : SpecError → ConnectionError

-- The primary keys.
abbrev pub binding_key : RemotePipeBinding → List Bytes
binding_key b = b.remote_pipe_id ∷ []

abbrev pub cache_key : AccessLeaseCache → List Bytes
cache_key c = c.remote_pipe_id ∷ []

abbrev pub find_binding : Bytes → Connections → Option RemotePipeBinding
find_binding remote_pipe_id db = find_row binding_key (remote_pipe_id ∷ []) db.bindings

abbrev pub find_cached : Bytes → Connections → Option AccessLeaseCache
find_cached remote_pipe_id db = find_row cache_key (remote_pipe_id ∷ []) db.lease_cache

-- `GetRemotePipeBinding`.
unfoldable pub get_remote_pipe_binding :
    Bytes → Connections → Result ConnectionError RemotePipeBinding
get_remote_pipe_binding remote_pipe_id db = do
  fail_if (not db.available) database_failed
  b ← or_fail (find_binding remote_pipe_id db) not_found
  map_err corrupt_binding (validate_remote b)
  ok b

abbrev pub stamped_binding : RemotePipeBinding → ℕ → RemotePipeBinding
stamped_binding b now = record b {
  created_at = if b.created_at == 0 then now else b.created_at;
  updated_at = now;
}

-- `PutRemotePipeBinding`.
unfoldable pub put_remote_pipe_binding :
    RemotePipeBinding → ℕ → Connections → Result ConnectionError Connections
put_remote_pipe_binding b now db = do
  map_err invalid_binding (validate_remote b)
  fail_if (not db.available) database_failed
  ok (record db { bindings = upsert_row binding_key replace (stamped_binding b now) db.bindings })

-- `DeleteRemotePipeBinding`.
unfoldable pub delete_remote_pipe_binding : Bytes → Connections → Result ConnectionError Connections
delete_remote_pipe_binding remote_pipe_id db = do
  fail_if (not db.available) database_failed
  ok (record db {
    bindings =
        delete_rows (λ (b : RemotePipeBinding). same b.remote_pipe_id remote_pipe_id) db.bindings;
  })

unfoldable pub without_cached : Bytes → Connections → Connections
without_cached remote_pipe_id db = record db {
  lease_cache =
      delete_rows (λ (c : AccessLeaseCache). same c.remote_pipe_id remote_pipe_id) db.lease_cache;
}

-- `GetAccessLeaseCache`; an entry that is over is deleted.
unfoldable pub get_access_lease_cache :
    Bytes → ℕ → Connections → Result ConnectionError AccessLeaseCache × Connections
get_access_lease_cache remote_pipe_id now db =
    if not db.available then (err database_failed, db) else elim (find_cached remote_pipe_id db) [
      | none ↦ (err not_found, db)
      | some c ↦
          if c.expires_at == 0 || not (ltb now c.expires_at)
          then (err not_found, without_cached remote_pipe_id db)
          else if is_empty c.remote_pipe_id || is_empty c.access_lease
          then (err corrupt_cache, db)
          else (ok c, db)
    ]

-- `PutAccessLeaseCache`.
unfoldable pub put_access_lease_cache :
    AccessLeaseCache → Connections → Result ConnectionError Connections
put_access_lease_cache c db = do
  fail_if (is_empty c.remote_pipe_id || is_empty c.access_lease || c.expires_at == 0) invalid_cache
  fail_if (not db.available) database_failed
  ok (record db { lease_cache = upsert_row cache_key replace c db.lease_cache })

-- `DeleteAccessLeaseCache`.
unfoldable pub delete_access_lease_cache : Bytes → Connections → Result ConnectionError Connections
delete_access_lease_cache remote_pipe_id db = do
  fail_if (not db.available) database_failed
  ok (without_cached remote_pipe_id db)
