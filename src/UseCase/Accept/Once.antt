-- ===== src/UseCase/Accept/Once.antt =====
-- What accepting an invite writes, and which remote calls it makes (internal/usecase/accept.go).
use tubo.Base.{
  ◌≡◌, Bool, true, Option, some, refl, sym, subst, ap, ◌∙◌, ◌⊎◌, inl, inr, ◌∷◌, arith, Bytes, ok,
  Result-cases,
}
use tubo.UseCase.Checks.{read_invite, provision_recipient, verify_issued}
use tubo.UseCase.Accept.{
  AcceptExactInviteResult, accept_exact_invite, AcceptedInvite, acquire_carrier, redeem_remotely,
  binding_of, redeem_and_keep, accept_verified,
}
use tubo.Credential.{Library, ExactInvite, AccessLease}
use tubo.UseCase.{
  UseCases, World, Readings, RemoteCall, UseError, acquired, redeemed, redemption_address,
}
use tubo.UseCase.Run.{continue, failed, done, Outcome-cases}
use tubo.UseCase.Accept.Opened.{
  IsAcceptance, read_invite-IsValidInvite, verify_issued-IsValidLease, provision_recipient-ok,
  redemption_address-ok, acquire_carrier-reached, redeem_remotely-answer,
}
use tubo.UseCase.Accept.Written.{
  acquire_carrier-done, acquire_carrier-failed, redeem_remotely-done, redeem_remotely-failed,
  keep_acceptance-failed, Keeps, keep_acceptance-done,
}

module _ (g : Library) (u : UseCases) (r : Readings) where
  redeem_and_keep-failed :
      (invite : ExactInvite) (address recipient : Bytes) (e : UseError) (w v : World)
      → redeem_and_keep g u r invite address recipient w ≡ failed e v
      → (v ≡ w) ⊎ (v ≡ record w { calls = redeemed invite recipient ∷ w.calls })
  unfolding redeem_and_keep
  redeem_and_keep-failed invite address recipient e w v h =
      elim (Outcome-cases (redeem_remotely u invite recipient w)) [
        | inr (x, z, lost) ↦ ground (arith, redeem_remotely-failed g u r invite recipient x w z)
        | inl (lease, z, given) ↦
            let redeems = redeem_remotely-done g u r invite recipient lease w z given in
            elim (Result-cases
              (verify_issued g u r lease invite.issuer recipient invite.audience_pipe_id)) [
                | inr (x, lost) ↦ inr (ground arith)
                | inl (_, verified) ↦ inr (
                    keep_acceptance-failed g u r invite address recipient lease e z v (ground arith)
                    ∙ redeems)
              ]
      ]

  -- The redemption, the lease that it gave and that was verified, and what was kept.
  abbrev pub Redeemed : ExactInvite → Bytes → Bytes → AcceptedInvite → World → World → Type 0
  Redeemed invite address recipient result w v =
      (verify_issued g u r result.lease invite.issuer recipient invite.audience_pipe_id ≡ ok tt)
      × Keeps g u r invite address recipient
          (record w { calls = redeemed invite recipient ∷ w.calls }) v
      × (result.binding ≡ binding_of g u r invite address recipient)
      × (result.recipient_public ≡ recipient)
      × ((redeem : ExactInvite → Bytes → Option AccessLease) × (u.redemption ≡ some redeem)
          × (redeem invite recipient ≡ some result.lease))

  redeem_and_keep-done :
      (invite : ExactInvite) (address recipient : Bytes) (result : AcceptedInvite) (w v : World)
      → redeem_and_keep g u r invite address recipient w ≡ done result v
      → Redeemed invite address recipient result w v
  unfolding redeem_and_keep
  redeem_and_keep-done invite address recipient result w v h =
      elim (Outcome-cases (redeem_remotely u invite recipient w)) [
        | inr (x, z, lost) ↦ absurd (ground arith)
        | inl (lease, z, given) ↦
            elim (Result-cases
              (verify_issued g u r lease invite.issuer recipient invite.audience_pipe_id)) [
                | inr (x, lost) ↦ absurd (ground arith)
                | inl (_, verified) ↦
                    let (keeps, is) =
                      keep_acceptance-done g u r invite address recipient lease result z v
                        (ground arith) in
                    let redeems = redeem_remotely-done g u r invite recipient lease w z given in
                    (
                      ap
                            (λ (x : AcceptedInvite).
                              verify_issued g u r x.lease invite.issuer recipient
                                invite.audience_pipe_id)
                            is
                          ∙ verified,
                      subst (λ x. Keeps g u r invite address recipient x v) redeems keeps,
                      ap (λ (x : AcceptedInvite). x.binding) is,
                      ap (λ (x : AcceptedInvite). x.recipient_public) is,
                      (let (redeem, wired, answer) =
                            redeem_remotely-answer g u r invite recipient lease w z given in
                          (
                            redeem,
                            wired,
                            answer ∙ ap (λ (x : AcceptedInvite). some x.lease) (sym is),
                          )),
                    )
              ]
      ]

  -- What is left of a failed acceptance: the tables as they were, and at most one redemption.
  abbrev pub NothingKept : ExactInvite → World → World → Type 0
  NothingKept invite w v =
      (v ≡ record w { calls = v.calls })
      × ((v.calls ≡ w.calls)
          ⊎ ((address : Bytes) × ((v.calls ≡ acquired address ∷ w.calls)
                ⊎ ((recipient : Bytes) × (v.calls
                      ≡ redeemed invite recipient ∷ acquired address ∷ w.calls)))))

  abbrev calling : World → RemoteCall → World
  calling w c = record w { calls = c ∷ w.calls }

  NothingKept-of_call :
      (invite : ExactInvite) (address : Bytes) (w v : World)
      → v ≡ calling w (acquired address)
      → NothingKept invite w v
  NothingKept-of_call invite address w v is =
      subst (NothingKept invite w) (sym is) (refl, inr (address, inl refl))

  NothingKept-of_redemption :
      (invite : ExactInvite) (address recipient : Bytes) (w v : World)
      → v ≡ calling (calling w (acquired address)) (redeemed invite recipient)
      → NothingKept invite w v
  NothingKept-of_redemption invite address recipient w v is =
      subst (NothingKept invite w) (sym is) (refl, inr (address, inr (recipient, refl)))

  redeeming-failed :
      (invite : ExactInvite) (address recipient : Bytes) (e : UseError) (w v : World)
      → continue (acquire_carrier u address w) (λ _. redeem_and_keep g u r invite address recipient)
        ≡ failed e v
      → NothingKept invite w v
  redeeming-failed invite address recipient e w v h =
      elim (Outcome-cases (acquire_carrier u address w)) [
        | inr (x, z, lost) ↦
            let ends : v ≡ z = ground arith in
            elim (acquire_carrier-failed g u r address x w z lost) [
              | inl same_world ↦
                  subst (NothingKept invite w) (sym (ends ∙ same_world)) (refl, inl refl)
              | inr dialed ↦ NothingKept-of_call invite address w v (ends ∙ dialed)
            ]
        | inl (_, z, dialed) ↦
            let start = acquire_carrier-done g u r address w z dialed in
            elim (redeem_and_keep-failed invite address recipient e z v (ground arith)) [
              | inl same_world ↦ NothingKept-of_call invite address w v (same_world ∙ start)
              | inr redeems ↦
                  NothingKept-of_redemption invite address recipient w v
                    (redeems ∙ ap (λ x. calling x (redeemed invite recipient)) start)
            ]
      ]

  -- An acceptance that fails leaves every table as it was, and has redeemed its invite at most once.
  pub accept_verified-failed :
      (invite : ExactInvite) (e : UseError) (w v : World)
      → accept_verified g u r invite w ≡ failed e v
      → NothingKept invite w v
  unfolding accept_verified
  accept_verified-failed invite e w v h =
      elim (Result-cases (provision_recipient g u r invite.audience_pipe_id)) [
        | inr (x, lost) ↦ ground arith
        | inl (recipient, own) ↦ elim (Result-cases (redemption_address g invite)) [
          | inr (x, lost) ↦ ground arith
          | inl (address, located) ↦ ground (arith, redeeming-failed invite address recipient e w v)
        ]
      ]

  -- What an acceptance that is done has checked and written.
  abbrev pub Accepted : ExactInvite → AcceptedInvite → World → World → Type 0
  Accepted invite result w v =
      (address : Bytes) × (recipient : Bytes) × (provision_recipient g u r invite.audience_pipe_id
        ≡ ok recipient)
      × (redemption_address g invite ≡ ok address)
      × Redeemed invite address recipient result (calling w (acquired address)) v
      × ((dial : Bytes → Bool) × (u.reach ≡ some dial) × (dial address ≡ true))

  -- An acceptance that is done has redeemed its invite once, at the address of the invite's binding; the
  -- lease that it got verifies under the invite's issuer, for the recipient and the invite's pipe; and of
  -- the accepted remote pipes the invite's alone has changed.
  pub accept_verified-done :
      (invite : ExactInvite) (result : AcceptedInvite) (w v : World)
      → accept_verified g u r invite w ≡ done result v
      → Accepted invite result w v
  unfolding accept_verified
  accept_verified-done invite result w v h =
      elim (Result-cases (provision_recipient g u r invite.audience_pipe_id)) [
        | inr (x, lost) ↦ absurd (ground arith)
        | inl (recipient, own) ↦ elim (Result-cases (redemption_address g invite)) [
          | inr (x, lost) ↦ absurd (ground arith)
          | inl (address, located) ↦ elim (Outcome-cases (acquire_carrier u address w)) [
            | inr (x, z, lost) ↦ absurd (ground arith)
            | inl (_, z, dialed) ↦ (
              address,
              recipient,
              own,
              located,
              subst (λ x. Redeemed invite address recipient result x v)
                  (acquire_carrier-done g u r address w z dialed)
                  (redeem_and_keep-done invite address recipient result z v (ground arith)),
              acquire_carrier-reached g u r address w z dialed,
            )
          ]
        ]
      ]

  -- What an acceptance of an encoded invite has checked, got and written: the calls are one of the carrier
  -- and then one of the redemption.
  abbrev pub AcceptedOnce :
      Bytes → ExactInvite → Bytes → Bytes → AcceptedInvite → World → World → Type 0
  AcceptedOnce encoded invite address recipient accepted w v =
      IsAcceptance g u r encoded invite address recipient accepted.lease
      × (accepted.binding ≡ binding_of g u r invite address recipient)
      × (accepted.recipient_public ≡ recipient)
      × Keeps g u r invite address recipient
          (record w { calls = redeemed invite recipient ∷ acquired address ∷ w.calls }) v

  AcceptedOnce-of_Accepted :
      (encoded : Bytes) (invite : ExactInvite) (accepted : AcceptedInvite) (w v : World)
      → read_invite g u r encoded ≡ ok invite
      → Accepted invite accepted w v
      → (address : Bytes) × (recipient : Bytes) × AcceptedOnce encoded invite address recipient
          accepted w v
  AcceptedOnce-of_Accepted encoded invite accepted w v read
        (address, recipient, own, located, (verified, keeps, bound, who, answered), reached) =
      let (coded, valid) = read_invite-IsValidInvite g u r encoded invite read in
      (
        address,
        recipient,
        (
          record {
            coded = coded;
            valid = valid;
            own = provision_recipient-ok g u r invite.audience_pipe_id recipient own;
            located = redemption_address-ok g u r invite address located;
            reached = reached;
            answered = answered;
            granted =
                verify_issued-IsValidLease g u r accepted.lease invite.issuer recipient
                  invite.audience_pipe_id verified;
          },
          bound,
          who,
          keeps,
        ),
      )

  -- An invite that is accepted was read from the given text and was valid when it was read: its issuer was
  -- bound by its pipe's owner, and it was signed and in time. The address that its binding names was dialed,
  -- with success, and then the invite was redeemed once, for the provisioned recipient's key; the lease is the
  -- answer of that redemption, and is valid under the invite's issuer, for that recipient and the invite's
  -- pipe. Of the accepted remote pipes the invite's alone has changed, no definition has, and what is
  -- reported is of that pipe, recipient and lease.
  pub accept_exact_invite-done :
      (encoded : Bytes) (result : AcceptExactInviteResult) (w v : World)
      → accept_exact_invite g u r encoded w ≡ done result v
      → (invite : ExactInvite) × (address : Bytes) × (recipient : Bytes)
        × (accepted : AcceptedInvite) × AcceptedOnce encoded invite address recipient accepted w v
        × (result ≡ record {
          remote_pipe_id = invite.audience_pipe_id;
          recipient_public = recipient;
          lease_expires_at = accepted.lease.expires_at;
        })
  unfolding accept_exact_invite
  accept_exact_invite-done encoded result w v h = elim (Result-cases (read_invite g u r encoded)) [
    | inr (e, lost) ↦ absurd (ground arith)
    | inl (invite, valid) ↦ elim (Outcome-cases (accept_verified g u r invite w)) [
      | inr (e, x, lost) ↦ absurd (ground arith)
      | inl (accepted, x, done_so) ↦
          let ends : x ≡ v = ground arith in
          let (address, recipient, (is, bound, who, keeps)) =
            AcceptedOnce-of_Accepted encoded invite accepted w x valid
              (accept_verified-done invite accepted w x done_so) in
          (
            invite,
            address,
            recipient,
            accepted,
            subst (AcceptedOnce encoded invite address recipient accepted w) ends
                (is, bound, who, keeps),
            ground (arith, bound, who),
          )
    ]
  ]
