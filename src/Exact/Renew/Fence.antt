-- ===== src/Exact/Renew/Fence.antt =====
-- Renewal of internal/exactauthority/renew.go after revocations in the store.
use tubo.Base.{ℕ, ◌≤◌, ◌≡◌, ◌≢◌, some, [], ◌∷◌, arith, Bytes, lit, ok, same_key_refl}
use tubo.Store.Exact.Epochs.{epoch_of_mono, epoch_of-revoke, WasRevoked-revoke, WasRevoked-mono}
use tubo.Exact.Renew.Rules.{renew_accepted_access-IsRenewed}
use tubo.Store.Exact.Tables.{epoch_of, Reach}
use tubo.Exact.Renew.{renew_accepted_access, RenewCall}
use tubo.Store.Exact.{accepted_relationship, pipe_access, revoke, Db}
use tubo.Credential.{AccessLease, Library}

-- Once a pipe-access revocation has moved a pipe's epoch, every lease that a renewal yields in a later
-- state carries an epoch that is not below it: relationships accepted before are not renewed.
pub renew_accepted_access-revoked_epoch :
    (g : Library) (c : RenewCall) (scope : Bytes) (epoch now : ℕ) (db₀ db₁ db : Db)
    (l : AccessLease)
    → c.adapter ≡ some scope
    → revoke scope pipe_access c.pipe_id epoch now db₀ ≡ ok db₁
    → Reach db₁ db
    → renew_accepted_access g c db ≡ ok l
    → (epoch ≤ l.access_epoch) × (l.access_epoch ≡ epoch_of scope pipe_access c.pipe_id db)
renew_accepted_access-revoked_epoch g c scope epoch now db₀ db₁ db l wired h r renewed =
    let (scope', auth, e, v) = renew_accepted_access-IsRenewed g c db l renewed in
    let same_scope : scope' ≡ scope = ground (arith, v.wired) in
    let minted : l.access_epoch ≡ e = v.minted.at_epoch in
    let (bound, law) =
      epoch_of-revoke scope pipe_access c.pipe_id scope pipe_access c.pipe_id epoch now db₀ db₁ h in
    let current : l.access_epoch ≡ epoch_of scope pipe_access c.pipe_id db =
      ground (arith, v.accepted, same_scope, minted) in
    (
      ground (
        arith,
        law,
        same_key_refl (scope ∷ pipe_access ∷ c.pipe_id ∷ []),
        epoch_of_mono scope pipe_access c.pipe_id r,
        current,
      ),
      current,
    )

-- Once the invite behind a relationship is revoked, the relationship is not renewed in a state that
-- still has it.
pub renew_accepted_access-revoked_invite :
    (g : Library) (c : RenewCall) (scope jti : Bytes) (epoch now accepted_epoch : ℕ)
    (db₀ db₁ db : Db) (l : AccessLease)
    → c.adapter ≡ some scope
    → revoke scope (lit "exact.invite") jti epoch now db₀ ≡ ok db₁
    → Reach db₁ db
    → accepted_relationship c.pipe_id c.recipient_public db ≡ ok (some (jti, accepted_epoch))
    → renew_accepted_access g c db ≢ ok l
renew_accepted_access-revoked_invite g c scope jti epoch now accepted_epoch db₀ db₁ db l wired h r
      rel renewed =
    let (scope', auth, e, v) = renew_accepted_access-IsRenewed g c db l renewed in
    let (row, found) =
      WasRevoked-mono scope (lit "exact.invite") jti r
        (WasRevoked-revoke scope (lit "exact.invite") jti epoch now db₀ db₁ h) in
    let (jti', rel', _, kept, _) = v.accepted in ground (arith, v.wired, found, rel, rel', kept)
