-- ===== src/UseCase/Accept.antt =====
-- internal/usecase/accept.go: accepting an invite, and what it shares with the access that follows.
pub mod Written
pub mod Opened
pub mod Once
use tubo.Base.{ℕ, not, Bytes, lit, is_blank, if◌then◌else◌, Result, ok, err, or_fail, map_err}
use tubo.Domain.Model.{RemotePipeBinding, AccessLeaseCache, validate_remote}
use tubo.Credential.{Library, ExactInvite, AccessLease}
use tubo.Credential.Lease.{encode_lease}
use tubo.Store.Connections.{
  Connections, ConnectionError, put_remote_pipe_binding, put_access_lease_cache,
}
use tubo.UseCase.{
  UseCases, World, Readings, RenewalRequest, acquired, redeemed, renewed, redemption_address,
  invalid_input, reachability_unavailable, pipe_unreachable, redemption_unavailable,
  redemption_failed, renewal_unavailable, renewal_failed, invalid_binding, persistence_unavailable,
  binding_failed, encode_failed,
}
use tubo.UseCase.Checks.{is_wired, provision_recipient, read_invite, verify_issued}
use tubo.UseCase.Run.{Outcome, Run, failed, done, ◌>>=◌, ◌>>◌, give, lift, stop_if, made}

pub record AcceptedInvite : Type 0 where
  pub binding : RemotePipeBinding
  pub lease : AccessLease
  pub recipient_public : Bytes

pub record AcceptExactInviteResult : Type 0 where
  pub remote_pipe_id : Bytes
  pub recipient_public : Bytes
  pub lease_expires_at : ℕ

abbrev stored_binding : World → Result ConnectionError Connections → Outcome (Unit {0})
stored_binding w (err e) = failed (binding_failed e) w
stored_binding w (ok connections) = done tt (record w { connections = connections })

-- `u.Bindings.Put`.
abbrev pub put_binding : Readings → RemotePipeBinding → Run (Unit {0})
put_binding r b w = stored_binding w (put_remote_pipe_binding b r.stored_at w.connections)

abbrev kept_or : World → Result ConnectionError Connections → World
kept_or w (err e) = w
kept_or w (ok connections) = record w { connections = connections }

abbrev pub cache_of : Bytes → AccessLease → Bytes → AccessLeaseCache
cache_of remote_pipe_id lease text = record {
  remote_pipe_id = remote_pipe_id;
  access_lease = text;
  expires_at = lease.expires_at;
}

-- The cache that `acceptExactInvite` writes; what fails there is not reported.
unfoldable pub cache_quietly : Library → UseCases → Bytes → AccessLease → Run (Unit {0})
cache_quietly g u remote_pipe_id lease w =
    if u.has_lease_cache
    then elim (encode_lease g lease) [
      | err e ↦ done tt w
      | ok text ↦
          done tt
            (kept_or w (put_access_lease_cache (cache_of remote_pipe_id lease text) w.connections))
    ]
    else done tt w

-- Step 6 of `AcquireAcceptedPipeAccess`, where what fails is reported.
unfoldable pub cache_lease : Library → UseCases → Bytes → AccessLease → Run (Unit {0})
cache_lease g u remote_pipe_id lease w =
    if u.has_lease_cache
    then elim (encode_lease g lease) [
      | err e ↦ failed encode_failed w
      | ok text ↦
          stored_binding w
            (put_access_lease_cache (cache_of remote_pipe_id lease text) w.connections)
    ]
    else done tt w

-- The carrier to an address; a call is made where the capability is wired.
unfoldable pub acquire_carrier : UseCases → Bytes → Run (Unit {0})
acquire_carrier u address = do
  dial ← lift (or_fail u.reach reachability_unavailable)
  made (acquired address)
  stop_if (not (dial address)) pipe_unreachable

-- The one redemption of an invite.
unfoldable pub redeem_remotely : UseCases → ExactInvite → Bytes → Run AccessLease
redeem_remotely u invite recipient_public = do
  redeem ← lift (or_fail u.redemption redemption_unavailable)
  made (redeemed invite recipient_public)
  lift (or_fail (redeem invite recipient_public) redemption_failed)

unfoldable pub renew_remotely : UseCases → RenewalRequest → Run AccessLease
renew_remotely u request = do
  renew ← lift (or_fail u.renewal renewal_unavailable)
  made (renewed request)
  lift (or_fail (renew request) renewal_failed)

module _ (g : Library) (u : UseCases) (r : Readings) where
  abbrev pub binding_of : ExactInvite → Bytes → Bytes → RemotePipeBinding
  binding_of invite address recipient_public = record {
    remote_pipe_id = invite.audience_pipe_id;
    authority_public = invite.issuer;
    owner_binding = invite.binding;
    locator = address;
    recipient_public = recipient_public;
    source = lit "invite";
    created_at = r.later;
    updated_at = r.later;
  }

  -- The durable writes of an acceptance.
  unfoldable pub keep_acceptance : ExactInvite → Bytes → Bytes → AccessLease → Run AcceptedInvite
  keep_acceptance invite address recipient_public lease = do
    let binding = binding_of invite address recipient_public
    lift (map_err invalid_binding (validate_remote binding))
    stop_if (not u.has_bindings) persistence_unavailable
    put_binding r binding
    cache_quietly g u invite.audience_pipe_id lease
    give (record { binding = binding; lease = lease; recipient_public = recipient_public })

  -- The redemption, the check of its lease, and what is kept.
  unfoldable pub redeem_and_keep : ExactInvite → Bytes → Bytes → Run AcceptedInvite
  redeem_and_keep invite address recipient_public = do
    lease ← redeem_remotely u invite recipient_public
    lift (verify_issued g u r lease invite.issuer recipient_public invite.audience_pipe_id)
    keep_acceptance invite address recipient_public lease

  -- `acceptExactInvite`.
  unfoldable pub accept_verified : ExactInvite → Run AcceptedInvite
  accept_verified invite = do
    stop_if (is_blank u.secrets) invalid_input
    recipient_public ← lift (provision_recipient g u r invite.audience_pipe_id)
    stop_if (not (is_wired u.reach)) reachability_unavailable
    address ← lift (redemption_address g invite)
    acquire_carrier u address
    redeem_and_keep invite address recipient_public

  -- `AcceptExactInvite`.
  unfoldable pub accept_exact_invite : Bytes → Run AcceptExactInviteResult
  accept_exact_invite encoded = do
    stop_if (is_blank encoded) invalid_input
    invite ← lift (read_invite g u r encoded)
    accepted ← accept_verified invite
    give (record {
      remote_pipe_id = accepted.binding.remote_pipe_id;
      recipient_public = accepted.recipient_public;
      lease_expires_at = accepted.lease.expires_at;
    })
