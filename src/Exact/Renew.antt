-- ===== src/Exact/Renew.antt =====
-- internal/exactauthority/renew.go: an accepted recipient is given a fresh lease.
pub mod Rules
pub mod Fence
use tubo.Base.{
  ℕ, not, ◌||◌, Option, [], ◌∷◌, Bytes, lit, same, is_empty, length, ltb, ◌==◌, if◌then◌else◌,
  Result, ok, ◌>>=◌, ◌>>◌, fail_if, or_fail, map_err,
}
use tubo.Credential.Encoding.{public_string, verify_proof, verify_pipe_owner, public_from_string}
use tubo.Exact.{
  authority_mismatch, owner_mismatch, invalid_pipe_id, invalid_proof, load, authority_unavailable,
  missing_challenge, epoch_stale, epoch_unavailable, invalid_recipient, owner_key_invalid,
  pipe_mismatch, revoked, revocation_unavailable, credential, dependency_missing, not_accepted,
  accepted_unavailable, invalid_owner_binding, Authority, ExactError, Loader,
}
use tubo.Credential.{renew_proof_purpose, max_ttl, max_pipe_id_len, AccessLease, Library}
use tubo.Credential.Binding.{verify_owner_binding, decode_owner_binding}
use tubo.Credential.Lease.{new_access_lease}
use tubo.Store.Exact.{Db, pipe_access, is_revoked, revocation_epoch, accepted_relationship}

-- One call of `RenewAcceptedAccess`, as in `RedeemCall`.
pub record RenewCall : Type 0 where
  pub now : ℕ
  pub pipe_id : Bytes
  pub recipient_public : Bytes
  pub owner_binding : Bytes
  pub server_challenge : Bytes
  pub challenge_proof : Bytes
  pub loader : Loader
  pub adapter : Option Bytes
  pub lease_lifetime : ℕ
  pub lease_random : Option Bytes

module _ (g : Library) where
  open g use {ed_public}

  -- Steps 2 to 4: the binding that the relationship carries, and the key that it binds.
  unfoldable pub check_renewal_authority : RenewCall → Result ExactError Authority
  check_renewal_authority c = do
    binding ← map_err (λ _. invalid_owner_binding) (decode_owner_binding g c.owner_binding)
    _ ← map_err (λ _. invalid_owner_binding) (verify_owner_binding g binding)
    fail_if (not (same binding.pipe_id c.pipe_id)) pipe_mismatch
    owner_pub ← map_err (λ _. owner_key_invalid) (public_from_string g binding.owner)
    fail_if (not (verify_pipe_owner g c.pipe_id owner_pub)) owner_mismatch
    auth ← map_err (λ _. authority_unavailable) (load g c.loader)
    fail_if (not (same binding.authority_key (public_string g (ed_public auth.private))))
        authority_mismatch
    ok auth

  -- Steps 5 and 6: the accepted relationship, and that nothing has revoked it. The accepted epoch.
  unfoldable pub check_relationship : Bytes → RenewCall → Db → Result ExactError ℕ
  check_relationship scope c db = do
    found ←
        map_err (λ _. accepted_unavailable) (accepted_relationship c.pipe_id c.recipient_public db)
    (jti, accepted_epoch) ← or_fail found not_accepted
    gone ← map_err (λ _. revocation_unavailable) (is_revoked scope (lit "exact.invite") jti db)
    fail_if gone revoked
    current ← map_err (λ _. epoch_unavailable) (revocation_epoch scope pipe_access c.pipe_id db)
    fail_if (not (current == accepted_epoch)) epoch_stale
    ok accepted_epoch

  -- `NewAccessLeaseForReissuance`.
  unfoldable pub reissue :
      Authority → Bytes → Bytes → ℕ → ℕ → ℕ → Option Bytes → Result ExactError AccessLease
  reissue auth recipient_public pipe_id now lifetime access_epoch random = map_err credential (
      new_access_lease g auth.private recipient_public pipe_id now
        (if lifetime == 0 || ltb max_ttl lifetime then max_ttl else lifetime) access_epoch random)

  -- `RenewAcceptedAccess`; it writes nothing.
  unfoldable pub renew_accepted_access : RenewCall → Db → Result ExactError AccessLease
  renew_accepted_access c db = do
    scope ← or_fail c.adapter dependency_missing
    fail_if (is_empty c.pipe_id || ltb max_pipe_id_len (length c.pipe_id)) invalid_pipe_id
    recipient_key ← map_err (λ _. invalid_recipient) (public_from_string g c.recipient_public)
    auth ← check_renewal_authority c
    accepted_epoch ← check_relationship scope c db
    fail_if (is_empty c.server_challenge) missing_challenge
    fail_if
        (not (
          verify_proof g recipient_key c.challenge_proof renew_proof_purpose
            (c.pipe_id ∷ c.server_challenge ∷ [])))
        invalid_proof
    reissue auth c.recipient_public c.pipe_id c.now c.lease_lifetime accepted_epoch c.lease_random
