-- ===== src/Exact/Redeem.antt =====
-- internal/exactauthority/redeem.go: an invite is exchanged for a lease.
pub mod Effects
pub mod Limits
use tubo.Base.{
  ℕ, ◌-◌, Bool, not, ◌&&◌, ◌||◌, Option, [], ◌∷◌, Bytes, lit, same, is_empty, ltb, ◌==◌,
  if◌then◌else◌, Result, ok, err, ◌>>=◌, ◌>>◌, fail_if, or_fail, map_err,
}
use tubo.Exact.{
  issuer_not_bound, not_one_time, owner_mismatch, pipe_mismatch, invalid_proof, load,
  owner_key_invalid, already_redeemed, authority_unavailable, epoch_stale, epoch_unavailable,
  missing_challenge, persistence_failed, dependency_missing, invalid_owner_binding, revoked,
  Authority, credential, invalid_recipient, revocation_unavailable, ExactError, Loader,
}
use tubo.Credential.Encoding.{verify_pipe_owner, verify_proof, public_from_string, random_id}
use tubo.Credential.Invite.{verify_invite, decode_invite}
use tubo.Credential.{redeem_proof_purpose, AccessLease, OwnerBinding, ExactInvite, Library, max_ttl}
use tubo.Credential.Binding.{verify_owner_binding, decode_owner_binding}
use tubo.Credential.Lease.{new_access_lease}
use tubo.Store.Exact.{Db, pipe_access, is_revoked, revocation_epoch, redeem_invite_and_accept}

-- One call of `RedeemExactInvite`. `wall` is `time.Now()`, and the random bytes are what `rand.Read`
-- yields for the session and for the lease, where it succeeds. `adapter` is the scope of the store
-- adapter that serves as revocation state and as redemption store, if one is wired; a lifetime of 0
-- stands for any that is not positive.
pub record RedeemCall : Type 0 where
  pub now : ℕ
  pub wall : ℕ
  pub encoded_invite : Bytes
  pub recipient_public : Bytes
  pub server_challenge : Bytes
  pub challenge_proof : Bytes
  pub loader : Loader
  pub adapter : Option Bytes
  pub lease_lifetime : ℕ
  pub alive : Bool
  pub session_random : Option Bytes
  pub lease_random : Option Bytes

-- The lifetime of the first lease: the authority's, capped by `MaxTTL` and by what is left of the
-- invite. On ℕ what is left of an invite that is over is 0, where Go's is negative; both are skipped.
unfoldable pub bootstrap_lifetime : ℕ → ℕ → ℕ → ℕ
bootstrap_lifetime lifetime expires_at now =
    let bounded = if lifetime == 0 || ltb max_ttl lifetime then max_ttl else lifetime in
    let left = expires_at - now in if ltb left bounded && ltb 0 left then left else bounded

module _ (g : Library) where
  open g use {ed_public}

  -- Step 3: the owner's binding that the invite embeds.
  unfoldable pub check_invite_binding : ExactInvite → Result ExactError OwnerBinding
  check_invite_binding invite = do
    binding ← map_err (λ _. invalid_owner_binding) (decode_owner_binding g invite.binding)
    _ ← map_err (λ _. invalid_owner_binding) (verify_owner_binding g binding)
    owner_pub ← map_err (λ _. owner_key_invalid) (public_from_string g binding.owner)
    fail_if (not (verify_pipe_owner g invite.audience_pipe_id owner_pub)) owner_mismatch
    fail_if (not (same binding.authority_key invite.issuer)) issuer_not_bound
    fail_if (not (same binding.pipe_id invite.audience_pipe_id)) pipe_mismatch
    ok binding

  -- Steps 7 to 9: the recipient's possession proof over the server's challenge.
  unfoldable pub check_redeem_proof : RedeemCall → ExactInvite → Result ExactError (Unit {0})
  check_redeem_proof c invite = do
    recipient_key ← map_err (λ _. invalid_recipient) (public_from_string g c.recipient_public)
    fail_if (is_empty c.server_challenge) missing_challenge
    fail_if
        (not (
          verify_proof g recipient_key c.challenge_proof redeem_proof_purpose
            (invite.jti ∷ invite.audience_pipe_id ∷ c.server_challenge ∷ [])))
        invalid_proof

  -- Step 6B: neither the invite nor the epoch it was minted at is revoked.
  unfoldable pub check_invite_state : Bytes → ExactInvite → Db → Result ExactError (Unit {0})
  check_invite_state scope invite db = do
    gone ←
        map_err (λ _. revocation_unavailable) (is_revoked scope (lit "exact.invite") invite.jti db)
    fail_if gone revoked
    current ←
        map_err (λ _. epoch_unavailable)
          (revocation_epoch scope pipe_access invite.audience_pipe_id db)
    fail_if (not (current == invite.access_epoch)) epoch_stale

  -- Steps 2 to 9: what is checked before anything is written.
  unfoldable pub redeem_checks : RedeemCall → Db → Result ExactError (ExactInvite × Authority)
  redeem_checks c db = do
    scope ← or_fail c.adapter dependency_missing
    invite ← map_err credential (decode_invite g c.encoded_invite)
    _ ← check_invite_binding invite
    auth ← map_err (λ _. authority_unavailable) (load g c.loader)
    map_err credential (verify_invite g invite c.now c.wall invite.audience_pipe_id)
    fail_if (not invite.one_time) not_one_time
    check_redeem_proof c invite
    check_invite_state scope invite db
    ok (invite, auth)

  -- Step 10: the store's one transaction.
  unfoldable pub redeem_write : RedeemCall → ExactInvite → Db → Result ExactError Db
  redeem_write c invite db = do
    session_id ← map_err credential (random_id g (lit "ses_") c.session_random)
    (done, db') ←
        map_err (λ _. persistence_failed)
          (redeem_invite_and_accept invite.jti invite.audience_pipe_id session_id c.recipient_public
            invite.access_epoch c.now c.alive db)
    fail_if (not done) already_redeemed
    ok db'

  -- Step 11: the lease.
  unfoldable pub redeem_mint : RedeemCall → ExactInvite → Authority → Result ExactError AccessLease
  redeem_mint c invite auth = map_err credential (
      new_access_lease g auth.private c.recipient_public invite.audience_pipe_id c.now
        (bootstrap_lifetime c.lease_lifetime invite.expires_at c.now) invite.access_epoch
        c.lease_random)

  -- `RedeemExactInvite`: the answer, and the tables after it.
  unfoldable pub redeem_exact_invite : RedeemCall → Db → Result ExactError AccessLease × Db
  redeem_exact_invite c db = elim (redeem_checks c db) [
    | err e ↦ (err e, db)
    | ok (invite, auth) ↦ elim (redeem_write c invite db) [
      | err e ↦ (err e, db)
      | ok db' ↦ (redeem_mint c invite auth, db')
    ]
  ]
