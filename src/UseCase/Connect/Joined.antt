-- ===== src/UseCase/Connect/Joined.antt =====
-- What a connection leaves, done or failed (internal/usecase/connect.go).
use tubo.Base.{
  ◌≡◌, refl, sym, subst, ap, ◌∙◌, ◌⊎◌, inl, inr, true, false, Option, some, none, [], ◌∷◌, arith,
  same_iff, Result, ok, err, Result-cases, Option-cases, Bool-cases, find_row,
}
use tubo.Domain.Model.{RemotePipeBinding}
use tubo.Credential.{Library, ExactInvite}
use tubo.Store.Connections.{stamped_binding, find_binding, binding_key, get_remote_pipe_binding}
use tubo.Store.Resources.{SpecLibrary, Resources, put_pipe}
use tubo.Store.Resources.Written.{PipeWritten, put_pipe-PipeWritten}
use tubo.UseCase.{UseCases, World, Readings, UseError}
use tubo.UseCase.Run.{Outcome, Run, continue, settle, failed, done, Outcome-cases}
use tubo.UseCase.Checks.{ConnectExactInput, LocalPipe, Plan, provision_recipient, plan_connect}
use tubo.UseCase.Accept.{AcceptedInvite, accept_verified, binding_of}
use tubo.UseCase.Accept.Once.{accept_verified-done, accept_verified-failed}
use tubo.UseCase.Acquire.{acquire_accepted_pipe_access}
use tubo.UseCase.Acquire.Quiet.{ending, acquire_accepted_pipe_access-Quiet}
use tubo.UseCase.Connect.{
  ConnectExactResult, check_identity, establish, store_local, connect_planned, connect_exact,
}
use tubo.UseCase.Connect.Ready.{Ready, establish-Ready}
use tubo.UseCase.Connect.Planned.{IsPlan, FromInput, plan_connect-ok}

SameResources-bind :
    {A B : Type 0} (w : World) (first : Outcome A) (next : A → Run B)
    → (ending first).resources ≡ w.resources
    → ((a : A) (v : World) → (ending (next a v)).resources ≡ v.resources)
    → (ending (continue first next)).resources ≡ w.resources
SameResources-bind w (failed e v) next h k = h
SameResources-bind w (done a v) next h k = k a v ∙ h

settle-resources :
    {A : Type 0} (answer : Result UseError A) (w : World)
    → (ending (settle answer w)).resources ≡ w.resources
settle-resources (err e) w = refl
settle-resources (ok a) w = refl

module _ (g : Library) (j : SpecLibrary) (u : UseCases) (r : Readings) where
  accept_verified-resources :
      (invite : ExactInvite) (w : World)
      → (ending (accept_verified g u r invite w)).resources ≡ w.resources
  accept_verified-resources invite w = go (accept_verified g u r invite w) refl
    where
      go :
          (o : Outcome AcceptedInvite)
          → accept_verified g u r invite w ≡ o
          → (ending o).resources ≡ w.resources
      go (failed e v) is =
          ap (λ (x : World). x.resources) (accept_verified-failed g u r invite e w v is).0
      go (done a v) is =
          let (_, _, _, _, redeemed, _) = accept_verified-done g u r invite a w v is in redeemed.1.0

  establish-resources :
      (plan : Plan) (invite : Option ExactInvite) (w : World)
      → (ending (establish g j u r plan invite w)).resources ≡ w.resources
  unfolding establish
  establish-resources plan (some invite) w =
      SameResources-bind w (accept_verified g u r invite w) _ (accept_verified-resources invite w)
        λ _ v. refl
  establish-resources plan none w =
      SameResources-bind w (settle (check_identity g j u r plan w.connections) w) _
        (settle-resources _ w)
        λ _ v.
          SameResources-bind v (acquire_accepted_pipe_access g u r plan.target_pipe_id v) _
            (acquire_accepted_pipe_access-Quiet g u r plan.target_pipe_id v).0 λ _ x. refl

  -- The stored binding of the remote pipe is of the identity that connects.
  abbrev pub Joined : Plan → World → Type 0
  Joined plan v =
      (b : RemotePipeBinding) × (find_binding plan.target_pipe_id v.connections ≡ some b)
      × (b.recipient_public ≡ plan.recipient_public)

  check_identity-ok :
      (plan : Plan) (w : World) → check_identity g j u r plan w.connections ≡ ok tt → Joined plan w
  unfolding check_identity get_remote_pipe_binding
  check_identity-ok plan w h =
      elim (Option-cases (find_binding plan.target_pipe_id w.connections)) [
        | inl missing ↦ absurd (ground arith)
        | inr (b, found) ↦
            (b, found, ground (arith, same_iff b.recipient_public plan.recipient_public))
      ]

  establish-invited :
      (plan : Plan) (invite : ExactInvite) (w v : World)
      → plan.target_pipe_id ≡ invite.audience_pipe_id
      → provision_recipient g u r invite.audience_pipe_id ≡ ok plan.recipient_public
      → establish g j u r plan (some invite) w ≡ done tt v
      → Joined plan v
  unfolding establish
  establish-invited plan invite w v target own h =
      elim (Outcome-cases (accept_verified g u r invite w)) [
        | inr (e, x, lost) ↦ absurd (ground arith)
        | inl (accepted, x, is) ↦
            let ends : x ≡ v = ground arith in
            let (address, recipient, mine, located, redeemed, _) =
              accept_verified-done g u r invite accepted w x is in
            subst (Joined plan) ends (
              stamped_binding (binding_of g u r invite address recipient) r.stored_at,
              redeemed.1.2 plan.target_pipe_id
                  ∙ ground (arith, same_iff invite.audience_pipe_id plan.target_pipe_id),
              ground arith,
            )
      ]

  establish-accepted :
      (plan : Plan) (w v : World) → establish g j u r plan none w ≡ done tt v → Joined plan v
  unfolding establish
  establish-accepted plan w v h = elim (Result-cases (check_identity g j u r plan w.connections)) [
    | inr (e, lost) ↦ absurd (ground arith)
    | inl (_, mine) ↦
        elim (Outcome-cases (acquire_accepted_pipe_access g u r plan.target_pipe_id w)) [
          | inr (e, x, lost) ↦ absurd (ground arith)
          | inl (access, x, got) ↦
              let ends : x ≡ v = ground arith in
              let kept : x.connections.bindings ≡ w.connections.bindings =
                subst (λ o. (ending o).connections.bindings ≡ w.connections.bindings) got
                  (acquire_accepted_pipe_access-Quiet g u r plan.target_pipe_id w).1 in
              let (b, found, own) = check_identity-ok plan w mine in
              subst (Joined plan) ends
                (b, ap (find_row binding_key (plan.target_pipe_id ∷ [])) kept ∙ found, own)
        ]
  ]

  -- The local pipe is stored: it was there, or has been written.
  abbrev pub Stored : LocalPipe → Resources → Resources → Type 0
  Stored local a b =
      ((local.stored ≡ true) × (b ≡ a)) ⊎ ((local.stored ≡ false) × PipeWritten j local.spec b)

  store_local-done :
      (local : LocalPipe) (w v : World)
      → store_local g j u r local w ≡ done tt v
      → (v ≡ record w { resources = v.resources }) × Stored local w.resources v.resources
  unfolding store_local
  store_local-done local w v h = elim (Bool-cases local.stored) [
    | inl there ↦
        let ends : w ≡ v = ground arith in
        (ground arith, inl (there, ap (λ (x : World). x.resources) (sym ends)))
    | inr new ↦ elim (Result-cases (put_pipe j local.spec local.key_file [] w.resources)) [
      | inr (e, refused) ↦ absurd (ground arith)
      | inl ((created, db), put) ↦
          let ends : v ≡ record w { resources = db } = ground arith in
          (
            ends ∙ ap (λ (x : World). record w { resources = x.resources }) (sym ends),
            inr (
              new,
              subst (PipeWritten j local.spec) (sym (ap (λ (x : World). x.resources) ends))
                  (put_pipe-PipeWritten j local.spec local.key_file created w.resources db put).0,
            ),
          )
    ]
  ]

  store_local-failed :
      (local : LocalPipe) (e : UseError) (w v : World)
      → store_local g j u r local w ≡ failed e v
      → v ≡ w
  unfolding store_local
  store_local-failed local e w v h = ground arith

  -- What a connection that is done has planned and left.
  abbrev pub Connected : ConnectExactInput → ConnectExactResult → World → World → Type 0
  Connected input result w v =
      (plan : Plan) × IsPlan g j u r input w.resources plan
      × FromInput g j u r input plan
      × Joined plan v
      × Stored plan.local w.resources v.resources
      × (result ≡ record {
        pipe_ref = plan.local.spec.ref;
        pipe_id = plan.local.spec.pipe_id;
        target_pipe_id = plan.target_pipe_id;
        local_listen = plan.local.spec.ingress.listen;
      })

  establish-Joined :
      (input : ConnectExactInput) (plan : Plan) (w v : World)
      → FromInput g j u r input plan
      → establish g j u r plan plan.invite w ≡ done tt v
      → Joined plan v
  establish-Joined input plan w v (inl (invite, is, _, target, own, _)) h =
      establish-invited plan invite w v target own
        (ap (λ i. establish g j u r plan i w) (sym is) ∙ h)
  establish-Joined input plan w v (inr (is, target, own)) h =
      establish-accepted plan w v (ap (λ i. establish g j u r plan i w) (sym is) ∙ h)

  connect_planned-done :
      (input : ConnectExactInput) (plan : Plan) (result : ConnectExactResult) (w v : World)
      → plan_connect g j u r input w.resources ≡ ok plan
      → connect_planned g j u r plan w ≡ done result v
      → Connected input result w v
  unfolding connect_planned
  connect_planned-done input plan result w v planned h =
      elim (Outcome-cases (establish g j u r plan plan.invite w)) [
        | inr (e, x, lost) ↦ absurd (ground arith)
        | inl (_, x, joined) ↦ elim (Outcome-cases (store_local g j u r plan.local x)) [
          | inr (e, y, lost) ↦ absurd (ground arith)
          | inl (_, y, stored) ↦
              let ends : y ≡ v = ground arith in
              let (is, from) = plan_connect-ok g j u r input w.resources plan planned in
              let (b, found, own) = establish-Joined input plan w x from joined in
              let (rest, local) = store_local-done plan.local x y stored in
              let same_resources : x.resources ≡ w.resources =
                subst (λ o. (ending o).resources ≡ w.resources) joined
                  (establish-resources plan plan.invite w) in
              (
                plan,
                is,
                from,
                (
                  b,
                  ap (λ (z : World). find_binding plan.target_pipe_id z.connections)
                        (sym ends ∙ rest)
                      ∙ found,
                  own,
                ),
                subst (λ a. Stored plan.local a v.resources) same_resources
                    (subst (λ (z : World). Stored plan.local x.resources z.resources) ends local),
                ground arith,
              )
        ]
      ]

  -- A connection that is done leads from the local listener that was asked for to the remote pipe, under
  -- the identity of the recipient; the stored binding of the remote pipe is of that identity; and the local
  -- pipe was stored so before, or is now.
  pub connect_exact-done :
      (input : ConnectExactInput) (result : ConnectExactResult) (w v : World)
      → connect_exact g j u r input w ≡ done result v
      → Connected input result w v
  unfolding connect_exact
  connect_exact-done input result w v h =
      elim (Result-cases (plan_connect g j u r input w.resources)) [
        | inr (e, lost) ↦ absurd (ground arith)
        | inl (plan, planned) ↦ connect_planned-done input plan result w v planned (ground arith)
      ]

  connect_planned-failed :
      (plan : Plan) (e : UseError) (w v : World)
      → connect_planned g j u r plan w ≡ failed e v
      → v ≡ ending (establish g j u r plan plan.invite w)
  unfolding connect_planned
  connect_planned-failed plan e w v h =
      elim (Outcome-cases (establish g j u r plan plan.invite w)) [
        | inr (x, y, lost) ↦ let ends : v ≡ y = ground arith in ends ∙ ap ending (sym lost)
        | inl (_, x, joined) ↦ elim (Outcome-cases (store_local g j u r plan.local x)) [
          | inr (y, z, lost) ↦
              let ends : v ≡ z = ground arith in
              ends ∙ store_local-failed plan.local y x z lost ∙ ap ending (sym joined)
          | inl (_, y, stored) ↦ absurd (ground arith)
        ]
      ]

  -- A connection that fails leaves every definition as it was. It has also left the accepted remote pipes
  -- and the leases, and made no remote call, unless it had a plan (a local pipe that may be used, a valid
  -- invite or an identity that is there) that was ready: with an invite, the invite names an address and
  -- reachability is wired; without one, the stored binding of the remote pipe is valid, has a readable
  -- authority, and is of the identity that connects. It does not say that the redemption or the renewal is
  -- wired, which is found only after a carrier has been dialed.
  pub connect_exact-failed :
      (input : ConnectExactInput) (e : UseError) (w v : World)
      → connect_exact g j u r input w ≡ failed e v
      → (v.resources ≡ w.resources)
        × ((v ≡ w)
            ⊎ ((plan : Plan) × (plan_connect g j u r input w.resources ≡ ok plan)
                × IsPlan g j u r input w.resources plan
                × FromInput g j u r input plan
                × Ready g u plan w))
  unfolding connect_exact
  connect_exact-failed input e w v h =
      elim (Result-cases (plan_connect g j u r input w.resources)) [
        | inr (x, lost) ↦ ground arith
        | inl (plan, planned) ↦
            let ends = connect_planned-failed plan e w v (ground arith) in
            (
              ap (λ (x : World). x.resources) ends ∙ establish-resources plan plan.invite w,
              elim (establish-Ready g j u r plan plan.invite w refl) [
                | inl nothing ↦ inl (ends ∙ nothing)
                | inr ready ↦
                    let (is, from) = plan_connect-ok g j u r input w.resources plan planned in
                    inr (plan, planned, is, from, ready)
              ],
            )
      ]
