-- ===== src/Store/Leases.antt =====
-- internal/store/store.go: the leases that fence the periodic refresh of a scope.
pub mod Lock
pub mod Fence
use tubo.Base.{
  ℕ, ◌+◌, Bool, true, false, not, ◌&&◌, ◌||◌, Option, none, some, List, [], ◌∷◌, Bytes, same,
  is_empty, is_blank, length, ltb, ◌==◌, if◌then◌else◌, Result, ok, ◌>>=◌, ◌>>◌, fail_if, or_fail,
  map_err, upsert_row, delete_rows,
}
use tubo.Store.Cache.{
  replace, lease_key, database_failed, invalid_ttl, random_failed, find_lease, invalid_lease,
  invalid_lease_identity, lease_lost, Cache, CacheError, LeaseRow,
}
use tubo.Store.Stamp.{text_le}
use tubo.Credential.{Library}

-- 5 minutes.
abbrev pub max_scope_sync_lease_ttl : ℕ
max_scope_sync_lease_ttl = 300_000_000_000

-- `validScopeSyncLeaseInput`; a ttl of 0 stands for any that is not positive.
unfoldable pub valid_lease_input : Bytes → Bytes → Bytes → ℕ → Result CacheError (Unit {0})
valid_lease_input scope holder_ref process_identity ttl = do
  fail_if
      (is_blank scope
        || ltb 255 (length scope)
        || is_blank holder_ref
        || ltb 255 (length holder_ref)
        || is_blank process_identity
        || ltb 4096 (length process_identity))
      invalid_lease_identity
  fail_if (ttl == 0 || ltb max_scope_sync_lease_ttl ttl) invalid_ttl

-- `lease_token … UNIQUE`: the token stands in the row of another scope.
unfoldable pub token_taken : Bytes → Bytes → List LeaseRow → Bool
token_taken scope token [] = false
token_taken scope token (r ∷ rs) =
    let rest = token_taken scope token rs in
    (same r.token token && not (same r.scope scope)) || rest

-- The scopes are the same on a conflict: `ON CONFLICT(scope) DO UPDATE … WHERE scope_sync_leases.expires_at<=excluded.acquired_at`.
abbrev pub take_over : LeaseRow → LeaseRow → LeaseRow
take_over old new = record (if text_le old.expires_at new.acquired_at then new else old) {
  scope = new.scope;
}

-- Whether the statement changes a row.
abbrev pub takes : Option LeaseRow → ℕ → Bool
takes none now = true
takes (some old) now = text_le old.expires_at now

-- `AcquireScopeSyncLease`, at the 32 bytes that `rand.Read` yields; the lease, if it was acquired.
unfoldable pub acquire_lease :
    Library
    → Bytes
    → Bytes
    → Bytes
    → ℕ
    → ℕ
    → Option Bytes
    → Cache
    → Result CacheError (Option LeaseRow × Cache)
acquire_lease g scope holder_ref process_identity now ttl random c = do
  valid_lease_input scope holder_ref process_identity ttl
  value ← or_fail random random_failed
  let lease : LeaseRow = record {
    scope = scope;
    holder_ref = holder_ref;
    process_identity = process_identity;
    token = g.base64_encode value;
    acquired_at = now;
    renewed_at = now;
    expires_at = now + ttl;
  }
  fail_if (not c.available) database_failed
  fail_if (token_taken scope lease.token c.leases) database_failed
  ok (
    if takes (find_lease scope c) now then some lease else none,
    record c { leases = upsert_row lease_key take_over lease c.leases },
  )

-- `validLeaseFence`.
abbrev pub valid_lease_fence : LeaseRow → Bool
valid_lease_fence l =
    not (is_empty l.scope)
    && not (is_empty l.holder_ref)
    && not (is_empty l.process_identity)
    && not (is_empty l.token)

-- `WHERE scope=? AND holder_ref=? AND holder_process_identity=? AND lease_token=?`.
abbrev pub fenced_by : LeaseRow → LeaseRow → Bool
fenced_by l r =
    same r.scope l.scope
    && same r.holder_ref l.holder_ref
    && same r.process_identity l.process_identity
    && same r.token l.token

-- The row that such a statement selects; the scope is the primary key.
abbrev pub fenced_row : LeaseRow → Cache → Option LeaseRow
fenced_row l c = elim (find_lease l.scope c) [
  | none ↦ none
  | some r ↦ if fenced_by l r then some r else none
]

abbrev pub extended : ℕ → ℕ → LeaseRow → LeaseRow
extended now expires r = record r { renewed_at = now; expires_at = expires }

-- `RenewScopeSyncLease`: whether the lease is renewed.
unfoldable pub renew_lease : LeaseRow → ℕ → ℕ → Cache → Result CacheError (Bool × Cache)
renew_lease l now ttl c = do
  fail_if (not (valid_lease_fence l)) invalid_lease
  map_err (λ _. invalid_lease) (valid_lease_input l.scope l.holder_ref l.process_identity ttl)
  fail_if (not c.available) database_failed
  ok (elim (fenced_row l c) [
    | none ↦ (false, c)
    | some r ↦ if text_le r.expires_at now then (false, c) else (
      true,
      record c { leases = upsert_row lease_key replace (extended now (now + ttl) r) c.leases },
    )
  ])

-- `ReleaseScopeSyncLease`: whether a row was deleted.
unfoldable pub release_lease : LeaseRow → Cache → Result CacheError (Bool × Cache)
release_lease l c = do
  fail_if (not (valid_lease_fence l)) invalid_lease
  fail_if (not c.available) database_failed
  ok (
    elim (fenced_row l c) [ none ↦ false | some _ ↦ true ],
    record c { leases = delete_rows (fenced_by l) c.leases },
  )

-- What `ScopeSyncLease` reports: no token and no process, and the holder only of a live lease.
pub record LeaseStatus : Type 0 where
  pub scope : Bytes
  pub holder_ref : Bytes
  pub acquired_at : ℕ
  pub renewed_at : ℕ
  pub expires_at : ℕ
  pub active : Bool

unfoldable pub scope_sync_lease : Bytes → ℕ → Cache → Result CacheError LeaseStatus
scope_sync_lease scope now c = do
  fail_if (is_blank scope || ltb 255 (length scope)) invalid_lease_identity
  fail_if (not c.available) database_failed
  ok (elim (find_lease scope c) [
    | none ↦ record {
      scope = scope;
      holder_ref = [];
      acquired_at = 0;
      renewed_at = 0;
      expires_at = 0;
      active = false;
    }
    | some r ↦ record {
      scope = r.scope;
      holder_ref = if ltb now r.expires_at then r.holder_ref else [];
      acquired_at = r.acquired_at;
      renewed_at = r.renewed_at;
      expires_at = r.expires_at;
      active = ltb now r.expires_at;
    }
  ])

-- `leaseCurrentTx`: the lease is still its scope's, and not over.
unfoldable pub lease_current : LeaseRow → ℕ → Cache → Result CacheError (Unit {0})
lease_current l now c = do
  fail_if (not (valid_lease_fence l)) lease_lost
  r ← or_fail (fenced_row l c) lease_lost
  fail_if (not (ltb now r.expires_at)) lease_lost
