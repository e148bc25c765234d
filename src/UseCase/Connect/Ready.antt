-- ===== src/UseCase/Connect/Ready.antt =====
-- What internal/usecase/connect.go has checked of a plan before its first remote call or write.
use tubo.Base.{
  ◌≡◌, refl, ◌⊎◌, inl, inr, Bool, Option, some, none, arith, Bytes, same_iff, is_blank, ok, err,
  Result-cases, Option-cases, Bool-cases,
}
use tubo.Domain.Model.{RemotePipeBinding, validate_remote}
use tubo.Credential.{Library, ExactInvite}
use tubo.Credential.Encoding.{public_from_string}
use tubo.Store.Connections.{Connections, find_binding, get_remote_pipe_binding}
use tubo.Store.Resources.{SpecLibrary}
use tubo.UseCase.{
  UseCases, World, Readings, UseError, redemption_address, invalid_input, reachability_unavailable,
}
use tubo.UseCase.Run.{failed}
use tubo.UseCase.Checks.{Plan, provision_recipient, accepted_binding}
use tubo.UseCase.Accept.{accept_verified}
use tubo.UseCase.Acquire.{acquire_accepted_pipe_access}
use tubo.UseCase.Acquire.Quiet.{ending}
use tubo.UseCase.Connect.{check_identity, establish}

-- With an invite, where it is redeemed is known and the carrier's capability is wired.
abbrev pub ReadyInvite : Library → UseCases → ExactInvite → Type 0
ReadyInvite g u invite =
    (address : Bytes) × (dial : Bytes → Bool) × (redemption_address g invite ≡ ok address)
    × (u.reach ≡ some dial)

-- Without one, what was accepted is stored, sound, and of the identity that connects.
abbrev pub ReadyBinding : Library → Plan → World → Type 0
ReadyBinding g plan w =
    (b : RemotePipeBinding) × (key : Bytes) × (find_binding plan.target_pipe_id w.connections
      ≡ some b)
    × (b.recipient_public ≡ plan.recipient_public)
    × (validate_remote b ≡ ok tt)
    × (public_from_string g b.authority_public ≡ ok key)

abbrev pub Ready : Library → UseCases → Plan → World → Type 0
Ready g u plan w =
    ((invite : ExactInvite) × (plan.invite ≡ some invite) × ReadyInvite g u invite)
    ⊎ ((plan.invite ≡ none) × ReadyBinding g plan w)

module _ (g : Library) (j : SpecLibrary) (u : UseCases) (r : Readings) where
  accept_verified-ready :
      (invite : ExactInvite) (w : World)
      → ((e : UseError) × (accept_verified g u r invite w ≡ failed e w)) ⊎ ReadyInvite g u invite
  unfolding accept_verified
  accept_verified-ready invite w = elim (Bool-cases (is_blank u.secrets)) [
    | inl blank ↦ inl (invalid_input, ground arith)
    | inr given ↦ elim (Result-cases (provision_recipient g u r invite.audience_pipe_id)) [
      | inr (e, lost) ↦ inl (e, ground arith)
      | inl (recipient, own) ↦ elim (Option-cases u.reach) [
        | inl unwired ↦ inl (reachability_unavailable, ground arith)
        | inr (dial, wired) ↦ elim (Result-cases (redemption_address g invite)) [
          | inr (e, lost) ↦ inl (e, ground arith)
          | inl (address, located) ↦ inr (address, dial, located, wired)
        ]
      ]
    ]
  ]

  check_identity-binding :
      (plan : Plan) (db : Connections)
      → check_identity g j u r plan db ≡ ok tt
      → (b : RemotePipeBinding) × (find_binding plan.target_pipe_id db ≡ some b)
        × (b.recipient_public ≡ plan.recipient_public)
  unfolding check_identity get_remote_pipe_binding
  check_identity-binding plan db h = elim (Option-cases (find_binding plan.target_pipe_id db)) [
    | inl missing ↦ absurd (ground arith)
    | inr (b, found) ↦ (b, found, ground (arith, same_iff b.recipient_public plan.recipient_public))
  ]

  accepted_binding_sound :
      (id key : Bytes) (binding b : RemotePipeBinding) (db : Connections)
      → find_binding id db ≡ some b
      → accepted_binding g u id db ≡ ok (binding, key)
      → (validate_remote b ≡ ok tt) × (public_from_string g b.authority_public ≡ ok key)
  unfolding accepted_binding get_remote_pipe_binding
  accepted_binding_sound id key binding b db found h =
      elim (Result-cases (public_from_string g b.authority_public)) [
        | inr (e, lost) ↦ absurd (ground arith)
        | inl (k, read) ↦ (ground arith, ground arith)
      ]

  acquire_accepted_pipe_access-refused :
      (id : Bytes) (e : UseError) (w : World)
      → accepted_binding g u id w.connections ≡ err e
      → acquire_accepted_pipe_access g u r id w ≡ failed e w
  unfolding acquire_accepted_pipe_access
  acquire_accepted_pipe_access-refused id e w lost = ground arith

  -- Before anything is called or written, the plan is ready.
  pub establish-Ready :
      (plan : Plan) (invite : Option ExactInvite) (w : World)
      → plan.invite ≡ invite
      → (ending (establish g j u r plan invite w) ≡ w) ⊎ Ready g u plan w
  unfolding establish
  establish-Ready plan (some invite) w is = elim (accept_verified-ready invite w) [
    | inl (e, lost) ↦ inl (rw lost refl)
    | inr ready ↦ inr (inl (invite, is, ready))
  ]
  establish-Ready plan none w is = elim (Result-cases (check_identity g j u r plan w.connections)) [
    | inr (e, lost) ↦ inl (rw lost refl)
    | inl (_, mine) ↦ elim (Result-cases (accepted_binding g u plan.target_pipe_id w.connections)) [
      | inr (e, lost) ↦
          inl (rw (mine, acquire_accepted_pipe_access-refused plan.target_pipe_id e w lost) refl)
      | inl ((binding, key), sound) ↦
          let (b, found, own) = check_identity-binding plan w.connections mine in
          let (valid, read) =
            accepted_binding_sound plan.target_pipe_id key binding b w.connections found sound in
          inr (inr (is, (b, key, found, own, valid, read)))
    ]
  ]
