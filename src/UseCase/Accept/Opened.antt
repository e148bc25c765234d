-- ===== src/UseCase/Accept/Opened.antt =====
-- What the steps of internal/usecase/accept.go have established of the invite, the carrier and the lease.
use tubo.Base.{
  ◌≡◌, inl, inr, Bool, Option, true, some, arith, Bytes, trim_space, ok, Result-cases, Option-cases,
}
use tubo.Credential.{Library, ExactInvite, AccessLease, OwnerBinding}
use tubo.Credential.Encoding.{public_string, public_from_string}
use tubo.Credential.Binding.{decode_owner_binding}
use tubo.Credential.Invite.{decode_invite}
use tubo.Credential.Invite.Verify.{IsValidInvite, verify_invite-IsValidInvite}
use tubo.Credential.Lease.{effective_now}
use tubo.Credential.Lease.Verify.{IsValidLease, verify_lease_iff}
use tubo.UseCase.{UseCases, World, Readings, redemption_address, before_comma, recipient_key_file}
use tubo.UseCase.Run.{done}
use tubo.UseCase.Checks.{read_invite, provision_recipient, verify_issued}
use tubo.UseCase.Accept.{acquire_carrier, redeem_remotely}

-- What an acceptance rests on: the invite, the recipient, the carrier, the redemption and its lease.
pub record IsAcceptance (g : Library) (u : UseCases) (r : Readings) (encoded : Bytes)
    (invite : ExactInvite) (address recipient : Bytes) (lease : AccessLease) : Type 0 where
  pub coded : decode_invite g encoded ≡ ok invite
  pub valid : IsValidInvite g invite invite.audience_pipe_id (effective_now r.wall r.now)
  pub own :
      (private : Bytes) × (u.provision_key (recipient_key_file u invite.audience_pipe_id)
        ≡ some private)
      × (recipient ≡ public_string g (g.ed_public private))
  pub located :
      (b : OwnerBinding) × (decode_owner_binding g invite.binding ≡ ok b)
      × (address ≡ trim_space (before_comma b.redemption_peers))
  pub reached : (dial : Bytes → Bool) × (u.reach ≡ some dial) × (dial address ≡ true)
  pub answered :
      (redeem : ExactInvite → Bytes → Option AccessLease) × (u.redemption ≡ some redeem)
      × (redeem invite recipient ≡ some lease)
  pub granted :
      (key : Bytes) × (public_from_string g invite.issuer ≡ ok key)
      × IsValidLease g lease key recipient invite.audience_pipe_id (effective_now r.wall r.later)

module _ (g : Library) (u : UseCases) (r : Readings) where
  pub read_invite-IsValidInvite :
      (encoded : Bytes) (invite : ExactInvite)
      → read_invite g u r encoded ≡ ok invite
      → (decode_invite g encoded ≡ ok invite)
        × IsValidInvite g invite invite.audience_pipe_id (effective_now r.wall r.now)
  unfolding read_invite
  read_invite-IsValidInvite encoded invite h = (
    ground arith,
    verify_invite-IsValidInvite g invite r.now r.wall invite.audience_pipe_id (ground arith),
  )

  pub verify_issued-IsValidLease :
      (lease : AccessLease) (issuer recipient id : Bytes)
      → verify_issued g u r lease issuer recipient id ≡ ok tt
      → (key : Bytes) × (public_from_string g issuer ≡ ok key)
        × IsValidLease g lease key recipient id (effective_now r.wall r.later)
  unfolding verify_issued
  verify_issued-IsValidLease lease issuer recipient id h =
      elim (Result-cases (public_from_string g issuer)) [
        | inr (e, lost) ↦ absurd (ground arith)
        | inl (key, read) ↦
            (key, read, (verify_lease_iff g lease key recipient id r.later r.wall).0 (ground arith))
      ]

  pub provision_recipient-ok :
      (id recipient : Bytes)
      → provision_recipient g u r id ≡ ok recipient
      → (private : Bytes) × (u.provision_key (recipient_key_file u id) ≡ some private)
        × (recipient ≡ public_string g (g.ed_public private))
  unfolding provision_recipient
  provision_recipient-ok id recipient h =
      elim (Option-cases (u.provision_key (recipient_key_file u id))) [
        | inl missing ↦ absurd (ground arith)
        | inr (private, made) ↦ (private, made, ground arith)
      ]

  pub redemption_address-ok :
      (invite : ExactInvite) (address : Bytes)
      → redemption_address g invite ≡ ok address
      → (b : OwnerBinding) × (decode_owner_binding g invite.binding ≡ ok b)
        × (address ≡ trim_space (before_comma b.redemption_peers))
  unfolding redemption_address
  redemption_address-ok invite address h =
      elim (Result-cases (decode_owner_binding g invite.binding)) [
        | inr (e, lost) ↦ absurd (ground arith)
        | inl (b, read) ↦ (b, read, ground arith)
      ]

  pub acquire_carrier-reached :
      (address : Bytes) (w v : World)
      → acquire_carrier u address w ≡ done tt v
      → (dial : Bytes → Bool) × (u.reach ≡ some dial) × (dial address ≡ true)
  unfolding acquire_carrier
  acquire_carrier-reached address w v h = elim (Option-cases u.reach) [
    | inl missing ↦ absurd (ground arith)
    | inr (dial, wired) ↦ (dial, wired, ground arith)
  ]

  pub redeem_remotely-answer :
      (invite : ExactInvite) (recipient : Bytes) (lease : AccessLease) (w v : World)
      → redeem_remotely u invite recipient w ≡ done lease v
      → (redeem : ExactInvite → Bytes → Option AccessLease) × (u.redemption ≡ some redeem)
        × (redeem invite recipient ≡ some lease)
  unfolding redeem_remotely
  redeem_remotely-answer invite recipient lease w v h = elim (Option-cases u.redemption) [
    | inl missing ↦ absurd (ground arith)
    | inr (redeem, wired) ↦ (redeem, wired, ground arith)
  ]
