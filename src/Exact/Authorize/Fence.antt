-- ===== src/Exact/Authorize/Fence.antt =====
-- Opens of internal/runtime/exact_authorizer.go after revocations in the store.
use tubo.Base.{ℕ, ◌<◌, ◌≡◌, ◌≢◌, [], ◌∷◌, arith, lit, ok, same_key_refl}
use tubo.Store.Exact.Epochs.{WasRevoked-revoke, epoch_of_mono, WasRevoked-mono, epoch_of-revoke}
use tubo.Exact.Authorize.Rules.{authorize_open_iff}
use tubo.Exact.Authorize.{authorize_open, Authorization, OpenRequest, ExactOpenAuthorizer}
use tubo.Credential.Lease.{decode_lease}
use tubo.Store.Exact.{pipe_access, revoke, Db}
use tubo.Credential.{AccessLease, Library}
use tubo.Store.Exact.Tables.{Reach}

-- Once a pipe-access revocation has moved a pipe's epoch past the epoch of a lease, that lease opens
-- the pipe in no later state, whatever the rest of the request is.
pub authorize_open-revoked_epoch :
    (g : Library) (a : ExactOpenAuthorizer) (req : OpenRequest) (wall epoch now : ℕ)
    (db₀ db₁ db : Db) (lease : AccessLease) (z : Authorization)
    → revoke a.scope pipe_access req.pipe_id epoch now db₀ ≡ ok db₁
    → Reach db₁ db
    → decode_lease g req.access_lease ≡ ok lease
    → lease.access_epoch < epoch
    → authorize_open g a req wall db ≢ ok z
authorize_open-revoked_epoch g a req wall epoch now db₀ db₁ db lease z h r coded stale opened =
    let (lease', v, shape) = (authorize_open_iff g a req wall db z).0 opened in
    let same_lease : lease ≡ lease' = ground (arith, coded, v.coded) in
    let (bound, law) =
      epoch_of-revoke a.scope pipe_access req.pipe_id a.scope pipe_access req.pipe_id epoch now db₀
        db₁ h in
    ground (
      arith,
      law,
      same_key_refl (a.scope ∷ pipe_access ∷ req.pipe_id ∷ []),
      epoch_of_mono a.scope pipe_access req.pipe_id r,
      same_lease,
      v.current,
    )

-- Once a lease is revoked by its identifier, it opens the pipe in no later state.
pub authorize_open-revoked_lease :
    (g : Library) (a : ExactOpenAuthorizer) (req : OpenRequest) (wall epoch now : ℕ)
    (db₀ db₁ db : Db) (lease : AccessLease) (z : Authorization)
    → revoke a.scope (lit "access-lease") lease.jti epoch now db₀ ≡ ok db₁
    → Reach db₁ db
    → decode_lease g req.access_lease ≡ ok lease
    → authorize_open g a req wall db ≢ ok z
authorize_open-revoked_lease g a req wall epoch now db₀ db₁ db lease z h r coded opened =
    let (lease', v, shape) = (authorize_open_iff g a req wall db z).0 opened in
    let same_lease : lease ≡ lease' = ground (arith, coded, v.coded) in
    let (row, found) =
      WasRevoked-mono a.scope (lit "access-lease") lease.jti r
        (WasRevoked-revoke a.scope (lit "access-lease") lease.jti epoch now db₀ db₁ h) in
    ground (arith, same_lease, found, v.not_revoked)
