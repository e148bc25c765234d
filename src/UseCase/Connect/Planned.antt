-- ===== src/UseCase/Connect/Planned.antt =====
-- What internal/usecase/connect.go plans: a local pipe that leads to the remote one and is not rebound.
use tubo.Base.{
  ◌≡◌, refl, sym, subst, ap, ◌∙◌, ◌⊎◌, inl, inr, true, false, Option, some, none, arith, Bytes, lit,
  same_iff, is_empty, ok, Result-cases, Bool-cases, map_err,
}
use tubo.Domain.Ref.{kind_pipe, to_string}
use tubo.Domain.Model.{PipeSpec}
use tubo.Credential.{Library, ExactInvite}
use tubo.Credential.Invite.Verify.{IsValidInvite}
use tubo.Credential.Lease.{effective_now}
use tubo.UseCase.Accept.Opened.{read_invite-IsValidInvite}
use tubo.Credential.Encoding.{pipe_id_from_owner}
use tubo.Store.Resources.{SpecLibrary, Resources, pipe}
use tubo.UseCase.{UseCases, Readings, recipient_key_file, recipient_ref_for, invalid_name}
use tubo.UseCase.Run.{Lookup, present, missing, broken, looked_up}
use tubo.UseCase.Checks.{
  ConnectExactInput, LocalPipe, Plan, exact_connect_conflict, read_invite, provision_recipient,
  load_recipient, local_pipe, recipient_public_bytes, reuse_identity, reuse_reference, plan_local,
  plan_connect,
}

-- The pipe is local, listens where it is asked to, and leads to the remote pipe with the identity of
-- the recipient's key.
pub record IsConnection (spec : PipeSpec) (pipe_id target listen : Bytes) : Type 0 where
  pub to_pipe : spec.target.kind ≡ kind_pipe
  pub to_target : spec.target.name ≡ target
  pub identified : spec.pipe_id ≡ pipe_id
  pub is_local : spec.ingress.kind ≡ lit "local"
  pub listens : spec.ingress.listen ≡ listen

exact_connect_conflict-ok :
    (old : PipeSpec) (pipe_id target listen : Bytes)
    → exact_connect_conflict old pipe_id target listen ≡ ok tt
    → IsConnection old pipe_id target listen
unfolding exact_connect_conflict
exact_connect_conflict-ok old pipe_id target listen h = record {
  to_pipe = ground (arith, same_iff old.target.kind kind_pipe);
  to_target = ground (arith, same_iff old.target.name target);
  identified = ground (arith, same_iff old.pipe_id pipe_id);
  is_local = ground (arith, same_iff old.ingress.kind (lit "local"));
  listens = ground (arith, same_iff old.ingress.listen listen);
}

-- Where a stored pipe is reused, the store has it under the reference or the identity.
abbrev FoundIn : SpecLibrary → Resources → LocalPipe → Type 0
FoundIn j db local =
    local.stored ≡ true
    → (identifier : Bytes) × (looked_up (pipe j identifier db) ≡ present local.spec local.key_file)

abbrev Usable : SpecLibrary → Resources → Bytes → Bytes → Bytes → LocalPipe → Type 0
Usable j db pipe_id target listen local =
    IsConnection local.spec pipe_id target listen × FoundIn j db local

module _ (j : SpecLibrary) (input : ConnectExactInput) (spec : PipeSpec) (key target : Bytes)
    (db : Resources) (fresh : IsConnection spec spec.pipe_id target input.local_listen) where
  reuse_identity-ok :
      (identifier : Bytes) (found : Lookup) (local : LocalPipe)
      → looked_up (pipe j identifier db) ≡ found
      → reuse_identity input spec key target found ≡ ok local
      → Usable j db spec.pipe_id target input.local_listen local
  unfolding reuse_identity
  reuse_identity-ok identifier (present old old_key) local is h =
      elim (Result-cases (exact_connect_conflict old spec.pipe_id target input.local_listen)) [
        | inr (e, conflict) ↦ absurd (ground arith)
        | inl (_, fits) ↦
            let old_is : (record { spec = old; key_file = old_key; stored = true }) ≡ local =
              ground arith in
            subst (Usable j db spec.pipe_id target input.local_listen) old_is (
              exact_connect_conflict-ok old spec.pipe_id target input.local_listen fits,
              λ _. (identifier, is),
            )
      ]
  reuse_identity-ok identifier missing local is h =
      let new_is : (record { spec = spec; key_file = key; stored = false }) ≡ local =
        ground arith in
      subst (Usable j db spec.pipe_id target input.local_listen) new_is (fresh, λ c. absurd (cc))
  reuse_identity-ok identifier (broken e) local is h = cc

  reuse_reference-ok :
      (identifier : Bytes) (found : Lookup) (local : LocalPipe)
      → looked_up (pipe j identifier db) ≡ found
      → reuse_reference j input spec key target db found ≡ ok local
      → Usable j db spec.pipe_id target input.local_listen local
  unfolding reuse_reference
  reuse_reference-ok identifier (present old old_key) local is h =
      elim (Result-cases (exact_connect_conflict old spec.pipe_id target input.local_listen)) [
        | inr (e, conflict) ↦ absurd (ground arith)
        | inl (_, fits) ↦
            let old_is : (record { spec = old; key_file = old_key; stored = true }) ≡ local =
              ground arith in
            subst (Usable j db spec.pipe_id target input.local_listen) old_is (
              exact_connect_conflict-ok old spec.pipe_id target input.local_listen fits,
              λ _. (identifier, is),
            )
      ]
  reuse_reference-ok identifier missing local is h =
      reuse_identity-ok spec.pipe_id (looked_up (pipe j spec.pipe_id db)) local refl h
  reuse_reference-ok identifier (broken e) local is h = cc

module _ (g : Library) (j : SpecLibrary) (u : UseCases) (r : Readings) where
  -- The plan's local pipe is a connection with the recipient's identity.
  abbrev pub IsPlan : ConnectExactInput → Resources → Plan → Type 0
  IsPlan input db plan =
      Usable j db (pipe_id_from_owner g (recipient_public_bytes g u r plan.recipient_public))
        plan.target_pipe_id input.local_listen plan.local

  plan_local-ok :
      (input : ConnectExactInput) (invite : Option ExactInvite) (target recipient : Bytes)
      (db : Resources) (plan : Plan)
      → plan_local g j u r input invite target recipient db ≡ ok plan
      → IsPlan input db plan
        × (plan.invite ≡ invite)
        × (plan.target_pipe_id ≡ target)
        × (plan.recipient_public ≡ recipient)
  unfolding plan_local local_pipe
  plan_local-ok input invite target recipient db plan h =
      elim (Result-cases (map_err invalid_name (recipient_ref_for target input.name))) [
        | inr (e, lost) ↦ absurd (ground arith)
        | inl (ref, named) ↦
            let spec = local_pipe g u r ref target recipient input.local_listen in
            let found = looked_up (pipe j (to_string ref) db) in
            elim (Result-cases
              (reuse_reference j input spec (recipient_key_file u target) target db found)) [
                | inr (e, lost) ↦ absurd (ground arith)
                | inl (local, reuse) ↦
                    let is : (record {
                      invite = invite;
                      target_pipe_id = target;
                      recipient_public = recipient;
                      local = local;
                    })
                        ≡ plan =
                      ground arith in
                    subst
                      (λ (p : Plan).
                        IsPlan input db p
                        × (p.invite ≡ invite)
                        × (p.target_pipe_id ≡ target)
                        × (p.recipient_public ≡ recipient))
                      is
                      (
                        reuse_reference-ok j input spec (recipient_key_file u target) target db
                            (record {
                              to_pipe = refl;
                              to_target = refl;
                              identified = refl;
                              is_local = refl;
                              listens = refl;
                            })
                            (to_string ref) found local refl reuse,
                        refl,
                        refl,
                        refl,
                      )
              ]
      ]

  -- Whose identity the plan has: of a valid invite's recipient, or of who has accepted the remote pipe.
  abbrev pub FromInput : ConnectExactInput → Plan → Type 0
  FromInput input plan =
      ((invite : ExactInvite) × (plan.invite ≡ some invite)
        × (read_invite g u r input.invite ≡ ok invite)
        × (plan.target_pipe_id ≡ invite.audience_pipe_id)
        × (provision_recipient g u r invite.audience_pipe_id ≡ ok plan.recipient_public)
        × IsValidInvite g invite invite.audience_pipe_id (effective_now r.wall r.now))
      ⊎ (plan.invite ≡ none)
        × (plan.target_pipe_id ≡ input.remote_pipe_id)
        × (load_recipient g u r input.remote_pipe_id ≡ ok plan.recipient_public)

  pub plan_connect-ok :
      (input : ConnectExactInput) (db : Resources) (plan : Plan)
      → plan_connect g j u r input db ≡ ok plan
      → IsPlan input db plan × FromInput input plan
  unfolding plan_connect
  plan_connect-ok input db plan h = elim (Bool-cases (is_empty input.invite)) [
    | inr given ↦ elim (Result-cases (read_invite g u r input.invite)) [
      | inr (e, lost) ↦ absurd (ground arith)
      | inl (invite, valid) ↦
          elim (Result-cases (provision_recipient g u r invite.audience_pipe_id)) [
            | inr (e, lost) ↦ absurd (ground arith)
            | inl (recipient, own) ↦
                let (is, from, target, who) =
                  plan_local-ok input (some invite) invite.audience_pipe_id recipient db plan
                    (ground arith) in
                (
                  is,
                  inl (
                    invite,
                    from,
                    valid,
                    target,
                    own ∙ ap ok (sym who),
                    (read_invite-IsValidInvite g u r input.invite invite valid).1,
                  ),
                )
          ]
    ]
    | inl absent ↦ elim (Result-cases (load_recipient g u r input.remote_pipe_id)) [
      | inr (e, lost) ↦ absurd (ground arith)
      | inl (recipient, own) ↦
          let (is, from, target, who) =
            plan_local-ok input none input.remote_pipe_id recipient db plan (ground arith) in
          (is, inr (from, target, own ∙ ap ok (sym who)))
    ]
  ]
