-- ===== src/UseCase/Acquire.antt =====
-- internal/usecase/accept.go: access to a remote pipe that was accepted.
pub mod Quiet
pub mod Verified
use tubo.Base.{Option, none, some, Bytes, if◌then◌else◌, Result, ok, err}
use tubo.Domain.Model.{RemotePipeBinding, AccessLeaseCache}
use tubo.Credential.{Library, AccessLease}
use tubo.Credential.Lease.{verify_lease, decode_lease}
use tubo.Store.Connections.{ConnectionError, get_access_lease_cache}
use tubo.UseCase.{UseCases, Readings, RenewalRequest}
use tubo.UseCase.Run.{Run, done, ◌>>=◌, ◌>>◌, give, lift, look}
use tubo.UseCase.Checks.{accepted_binding, verify_issued}
use tubo.UseCase.Accept.{acquire_carrier, renew_remotely, cache_lease}

pub record AcceptedPipeAccess : Type 0 where
  pub remote_pipe_id : Bytes
  pub locator : Bytes
  pub authority_public : Bytes
  pub access_lease : AccessLease

module _ (g : Library) (u : UseCases) (r : Readings) where
  -- A cached text that decodes to a lease which is valid now.
  unfoldable pub usable_lease :
      RemotePipeBinding
      → Bytes
      → Bytes
      → Result ConnectionError AccessLeaseCache
      → Option AccessLease
  usable_lease binding key remote_pipe_id (err e) = none
  usable_lease binding key remote_pipe_id (ok cached) = elim (decode_lease g cached.access_lease) [
    | err _ ↦ none
    | ok lease ↦
        elim (verify_lease g lease key binding.recipient_public remote_pipe_id r.now r.wall) [
          | err _ ↦ none
          | ok _ ↦ some lease
        ]
  ]

  -- Step 2 of `AcquireAcceptedPipeAccess`; looking an expired entry up deletes it.
  unfoldable pub cached_access : RemotePipeBinding → Bytes → Bytes → Run (Option AccessLease)
  cached_access binding key remote_pipe_id w =
      if u.has_lease_cache
      then (let looked = get_access_lease_cache remote_pipe_id r.cached_at w.connections in
          done (usable_lease binding key remote_pipe_id looked.0)
            (record w { connections = looked.1 }))
      else done none w

  abbrev pub access_of : RemotePipeBinding → Bytes → AccessLease → AcceptedPipeAccess
  access_of binding remote_pipe_id lease = record {
    remote_pipe_id = remote_pipe_id;
    locator = binding.locator;
    authority_public = binding.authority_public;
    access_lease = lease;
  }

  abbrev pub request_of : RemotePipeBinding → Bytes → RenewalRequest
  request_of binding remote_pipe_id = record {
    pipe_id = remote_pipe_id;
    recipient_public = binding.recipient_public;
    owner_binding = binding.owner_binding;
  }

  -- Steps 4 to 7.
  unfoldable pub renewed_access : RemotePipeBinding → Bytes → Run AcceptedPipeAccess
  renewed_access binding remote_pipe_id = do
    lease ← renew_remotely u (request_of binding remote_pipe_id)
    lift
        (verify_issued g u r lease binding.authority_public binding.recipient_public remote_pipe_id)
    cache_lease g u remote_pipe_id lease
    give (access_of binding remote_pipe_id lease)

  -- Steps 3 to 7, where the cache has nothing to use.
  unfoldable pub renew_access :
      RemotePipeBinding → Bytes → Option AccessLease → Run AcceptedPipeAccess
  renew_access binding remote_pipe_id (some lease) = give (access_of binding remote_pipe_id lease)
  renew_access binding remote_pipe_id none = do
    acquire_carrier u binding.locator
    renewed_access binding remote_pipe_id

  -- `AcquireAcceptedPipeAccess`.
  unfoldable pub acquire_accepted_pipe_access : Bytes → Run AcceptedPipeAccess
  acquire_accepted_pipe_access remote_pipe_id = do
    (binding, key) ← look (λ w. accepted_binding g u remote_pipe_id w.connections)
    found ← cached_access binding key remote_pipe_id
    renew_access binding remote_pipe_id found
