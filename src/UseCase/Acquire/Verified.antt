-- ===== src/UseCase/Acquire/Verified.antt =====
-- What access to an accepted remote pipe rests on (internal/usecase/accept.go).
use tubo.Base.{
  ◌≡◌, refl, subst, ◌⊎◌, inl, inr, Option, some, none, arith, Bytes, Result, ok, err, Result-cases,
  Option-cases, Bool-cases,
}
use tubo.Credential.{Library, AccessLease}
use tubo.Credential.Lease.{verify_lease, decode_lease, effective_now}
use tubo.Credential.Lease.Verify.{IsValidLease, verify_lease_iff}
use tubo.Credential.Encoding.{public_from_string}
use tubo.Domain.Model.{RemotePipeBinding, AccessLeaseCache}
use tubo.Store.Connections.{
  Connections, ConnectionError, get_access_lease_cache, find_binding, get_remote_pipe_binding,
}
use tubo.UseCase.{UseCases, World, Readings}
use tubo.UseCase.Run.{done, Outcome-cases}
use tubo.UseCase.Checks.{accepted_binding, verify_issued}
use tubo.UseCase.Accept.{acquire_carrier, renew_remotely, cache_lease}
use tubo.UseCase.Acquire.{
  AcceptedPipeAccess, usable_lease, cached_access, access_of, request_of, renewed_access,
  renew_access, acquire_accepted_pipe_access,
}

module _ (g : Library) (u : UseCases) (r : Readings) where
  usable_lease-some :
      (binding : RemotePipeBinding) (key id : Bytes)
      (found : Result ConnectionError AccessLeaseCache) (lease : AccessLease)
      → usable_lease g u r binding key id found ≡ some lease
      → verify_lease g lease key binding.recipient_public id r.now r.wall ≡ ok tt
  unfolding usable_lease
  usable_lease-some binding key id (err e) lease h = cc
  usable_lease-some binding key id (ok cached) lease h =
      elim (Result-cases (decode_lease g cached.access_lease)) [
        | inr (x, lost) ↦ absurd (ground arith)
        | inl (read, coded) ↦
            elim (Result-cases (verify_lease g read key binding.recipient_public id r.now r.wall)) [
              | inr (x, lost) ↦ absurd (ground arith)
              | inl (_, valid) ↦ ground arith
            ]
      ]

  cached_access-usable :
      (binding : RemotePipeBinding) (key id : Bytes) (found : Option AccessLease) (w v : World)
      → cached_access g u r binding key id w ≡ done found v
      → (lease : AccessLease) → found ≡ some lease
      → verify_lease g lease key binding.recipient_public id r.now r.wall ≡ ok tt
  unfolding cached_access
  cached_access-usable binding key id found w v h lease e = elim (Bool-cases u.has_lease_cache) [
    | inr off ↦ absurd (ground arith)
    | inl on ↦
        usable_lease-some binding key id (get_access_lease_cache id r.cached_at w.connections).0
          lease (ground arith)
  ]

  accepted_binding-ok :
      (id key : Bytes) (binding : RemotePipeBinding) (db : Connections)
      → accepted_binding g u id db ≡ ok (binding, key)
      → (find_binding id db ≡ some binding)
        × (public_from_string g binding.authority_public ≡ ok key)
  unfolding accepted_binding get_remote_pipe_binding
  accepted_binding-ok id key binding db h = elim (Option-cases (find_binding id db)) [
    | inl missing ↦ absurd (ground arith)
    | inr (b, found) ↦ elim (Result-cases (public_from_string g b.authority_public)) [
      | inr (e, lost) ↦ absurd (ground arith)
      | inl (k, read) ↦ (ground arith, ground arith)
    ]
  ]

  verify_issued-ok :
      (lease : AccessLease) (issuer key recipient id : Bytes)
      → public_from_string g issuer ≡ ok key
      → verify_issued g u r lease issuer recipient id ≡ ok tt
      → IsValidLease g lease key recipient id (effective_now r.wall r.later)
  unfolding verify_issued
  verify_issued-ok lease issuer key recipient id read h =
      (verify_lease_iff g lease key recipient id r.later r.wall).0 (ground arith)

  -- The lease is valid at one of the two times at which it may be looked at.
  abbrev pub ValidFor : AccessLease → Bytes → Bytes → Bytes → Type 0
  ValidFor lease key recipient id =
      IsValidLease g lease key recipient id (effective_now r.wall r.now)
      ⊎ IsValidLease g lease key recipient id (effective_now r.wall r.later)

  -- Steps 4 to 7, once the carrier is there.
  renewed_access-done :
      (binding : RemotePipeBinding) (id key : Bytes) (access : AcceptedPipeAccess) (w v : World)
      → public_from_string g binding.authority_public ≡ ok key
      → renewed_access g u r binding id w ≡ done access v
      → (access ≡ access_of g u r binding id access.access_lease)
        × ValidFor access.access_lease key binding.recipient_public id
  unfolding renewed_access
  renewed_access-done binding id key access w v read h =
      elim (Outcome-cases (renew_remotely u (request_of g u r binding id) w)) [
        | inr (e, x, lost) ↦ absurd (ground arith)
        | inl (lease, x, given) ↦
            elim (Result-cases
              (verify_issued g u r lease binding.authority_public binding.recipient_public id)) [
                | inr (e, lost) ↦ absurd (ground arith)
                | inl (_, valid) ↦ elim (Outcome-cases (cache_lease g u id lease x)) [
                  | inr (e, y, lost) ↦ absurd (ground arith)
                  | inl (_, y, cached) ↦
                      let is : access_of g u r binding id lease ≡ access = ground arith in
                      subst
                        (λ (a : AcceptedPipeAccess).
                          (a ≡ access_of g u r binding id a.access_lease)
                          × ValidFor a.access_lease key binding.recipient_public id)
                        is
                        (
                          refl,
                          inr (
                              verify_issued-ok lease binding.authority_public key
                                binding.recipient_public id read valid),
                        )
                ]
              ]
      ]

  renew_access-done :
      (binding : RemotePipeBinding) (id key : Bytes) (found : Option AccessLease)
      (access : AcceptedPipeAccess) (w v : World)
      → public_from_string g binding.authority_public ≡ ok key
      → ((lease : AccessLease)
          → found ≡ some lease
          → verify_lease g lease key binding.recipient_public id r.now r.wall ≡ ok tt)
      → renew_access g u r binding id found w ≡ done access v
      → (access ≡ access_of g u r binding id access.access_lease)
        × ValidFor access.access_lease key binding.recipient_public id
  unfolding renew_access
  renew_access-done binding id key (some lease) access w v read usable h =
      let is : access_of g u r binding id lease ≡ access = ground arith in
      subst
        (λ (a : AcceptedPipeAccess).
          (a ≡ access_of g u r binding id a.access_lease)
          × ValidFor a.access_lease key binding.recipient_public id)
        is
        (
          refl,
          inl (
              (verify_lease_iff g lease key binding.recipient_public id r.now r.wall).0
                (usable lease refl)),
        )
  renew_access-done binding id key none access w v read usable h =
      elim (Outcome-cases (acquire_carrier u binding.locator w)) [
        | inr (e, x, lost) ↦ absurd (ground arith)
        | inl (_, x, dialed) ↦ renewed_access-done binding id key access x v read (ground arith)
      ]

  -- An access that is got rests on the stored binding of the remote pipe: the lease is valid under the key of
  -- the binding's authority, for its recipient and the pipe, at the first or the last reading of the clock.
  pub acquire_accepted_pipe_access-done :
      (id : Bytes) (access : AcceptedPipeAccess) (w v : World)
      → acquire_accepted_pipe_access g u r id w ≡ done access v
      → (binding : RemotePipeBinding) × (key : Bytes) × (find_binding id w.connections
          ≡ some binding)
        × (public_from_string g binding.authority_public ≡ ok key)
        × (access ≡ access_of g u r binding id access.access_lease)
        × ValidFor access.access_lease key binding.recipient_public id
  unfolding acquire_accepted_pipe_access
  acquire_accepted_pipe_access-done id access w v h =
      elim (Result-cases (accepted_binding g u id w.connections)) [
        | inr (e, lost) ↦ absurd (ground arith)
        | inl ((binding, key), accepted) ↦
            elim (Outcome-cases (cached_access g u r binding key id w)) [
              | inr (e, x, lost) ↦ absurd (ground arith)
              | inl (found, x, looked) ↦
                  let (stored, read) = accepted_binding-ok id key binding w.connections accepted in
                  let (is, valid) =
                    renew_access-done binding id key found access x v read
                      (cached_access-usable binding key id found w x looked) (ground arith) in
                  (binding, key, stored, read, is, valid)
            ]
      ]
