-- ===== src/UseCase/Accept/Written.antt =====
-- What each step of accepting an invite writes (internal/usecase/accept.go).
use tubo.Base.{
  ◌≡◌, refl, subst, ap, ◌∙◌, ◌⊎◌, inl, inr, true, false, some, [], ◌∷◌, arith, Bytes, same,
  if◌then◌else◌, Result-cases, same_key, find_row, upsert_row, find_row-upsert_row,
}
use tubo.Credential.{Library, ExactInvite, AccessLease}
use tubo.Domain.Model.{RemotePipeBinding, validate_remote}
use tubo.Store.Cache.{replace, merged-replace}
use tubo.Store.Connections.{
  binding_key, find_binding, stamped_binding, put_remote_pipe_binding, put_access_lease_cache,
}
use tubo.UseCase.{UseCases, World, Readings, UseError, acquired, redeemed}
use tubo.UseCase.Run.{failed, done, Outcome-cases}
use tubo.UseCase.Accept.{
  AcceptedInvite, put_binding, acquire_carrier, redeem_remotely, keep_acceptance, cache_quietly,
  binding_of,
}

module _ (g : Library) (u : UseCases) (r : Readings) where
  pub acquire_carrier-done :
      (address : Bytes) (w v : World)
      → acquire_carrier u address w ≡ done tt v
      → v ≡ record w { calls = acquired address ∷ w.calls }
  unfolding acquire_carrier
  acquire_carrier-done address w v h = ground arith

  pub acquire_carrier-failed :
      (address : Bytes) (e : UseError) (w v : World)
      → acquire_carrier u address w ≡ failed e v
      → (v ≡ w) ⊎ (v ≡ record w { calls = acquired address ∷ w.calls })
  unfolding acquire_carrier
  acquire_carrier-failed address e w v h = ground arith

  pub redeem_remotely-done :
      (invite : ExactInvite) (recipient : Bytes) (lease : AccessLease) (w v : World)
      → redeem_remotely u invite recipient w ≡ done lease v
      → v ≡ record w { calls = redeemed invite recipient ∷ w.calls }
  unfolding redeem_remotely
  redeem_remotely-done invite recipient lease w v h = ground arith

  pub redeem_remotely-failed :
      (invite : ExactInvite) (recipient : Bytes) (e : UseError) (w v : World)
      → redeem_remotely u invite recipient w ≡ failed e v
      → (v ≡ w) ⊎ (v ≡ record w { calls = redeemed invite recipient ∷ w.calls })
  unfolding redeem_remotely
  redeem_remotely-failed invite recipient e w v h = ground arith

  -- The cache writes the cache alone, and does not fail.
  cache_quietly-done :
      (k : Bytes) (lease : AccessLease) (w v : World)
      → cache_quietly g u k lease w ≡ done tt v
      → (v.resources ≡ w.resources)
        × (v.calls ≡ w.calls)
        × (v.connections.bindings ≡ w.connections.bindings)
  unfolding cache_quietly put_access_lease_cache
  cache_quietly-done k lease w v h = ground arith

  cache_quietly-failed :
      (k : Bytes) (lease : AccessLease) (e : UseError) (w v : World)
      → cache_quietly g u k lease w ≡ failed e v
      → false ≡ true
  unfolding cache_quietly
  cache_quietly-failed k lease e w v h = ground arith

  put_binding-done :
      (b : RemotePipeBinding) (w v : World)
      → put_binding r b w ≡ done tt v
      → (v ≡ record w {
        connections = record w.connections {
          bindings =
              upsert_row binding_key replace (stamped_binding b r.stored_at) w.connections.bindings;
        };
      })
  unfolding put_remote_pipe_binding
  put_binding-done b w v h = ground arith

  put_binding-failed :
      (b : RemotePipeBinding) (e : UseError) (w v : World) → put_binding r b w ≡ failed e v → v ≡ w
  put_binding-failed b e w v h = ground arith

  pub keep_acceptance-failed :
      (invite : ExactInvite) (address recipient : Bytes) (lease : AccessLease) (e : UseError)
      (w v : World)
      → keep_acceptance g u r invite address recipient lease w ≡ failed e v
      → v ≡ w
  unfolding keep_acceptance
  keep_acceptance-failed invite address recipient lease e w v h =
      let b = binding_of g u r invite address recipient in
      elim (Result-cases (validate_remote b)) [
        | inr (x, invalid) ↦ ground arith
        | inl (_, valid) ↦ elim (Outcome-cases (put_binding r b w)) [
          | inr (x, z, refused) ↦ ground (arith, put_binding-failed b x w z)
          | inl (_, z, put) ↦
              elim (Outcome-cases (cache_quietly g u invite.audience_pipe_id lease z)) [
                | inr (x, y, lost) ↦
                    absurd
                      (ground (arith, cache_quietly-failed invite.audience_pipe_id lease x z y))
                | inl (_, y, cached) ↦ ground arith
              ]
        ]
      ]

  -- The binding of an acceptance is found under the invite's pipe, and under no other.
  abbrev pub Keeps : ExactInvite → Bytes → Bytes → World → World → Type 0
  Keeps invite address recipient w v =
      (v.resources ≡ w.resources)
      × (v.calls ≡ w.calls)
      × ((k : Bytes)
          → find_binding k v.connections ≡ (
              if same invite.audience_pipe_id k
              then some (stamped_binding (binding_of g u r invite address recipient) r.stored_at)
              else find_binding k w.connections))

  Keeps-of_written :
      (invite : ExactInvite) (address recipient : Bytes) (w z y : World)
      → z ≡ record w {
        connections = record w.connections {
          bindings =
              upsert_row binding_key replace
                (stamped_binding (binding_of g u r invite address recipient) r.stored_at)
                w.connections.bindings;
        };
      }
      → (y.resources ≡ z.resources)
        × (y.calls ≡ z.calls)
        × (y.connections.bindings ≡ z.connections.bindings)
      → Keeps invite address recipient w y
  unfolding same_key
  Keeps-of_written invite address recipient w z y put (resources, calls, bindings) =
      let b = stamped_binding (binding_of g u r invite address recipient) r.stored_at in
      (
        resources ∙ ap (λ (x : World). x.resources) put,
        calls ∙ ap (λ (x : World). x.calls) put,
        λ k.
            ap (find_row binding_key (k ∷ []))
              (bindings ∙ ap (λ (x : World). x.connections.bindings) put)
            ∙ find_row-upsert_row binding_key replace b (k ∷ []) w.connections.bindings (λ _. refl)
            ∙ ground (
              arith,
              merged-replace b (find_row binding_key (binding_key b) w.connections.bindings),
            ),
      )

  pub keep_acceptance-done :
      (invite : ExactInvite) (address recipient : Bytes) (lease : AccessLease)
      (result : AcceptedInvite) (w v : World)
      → keep_acceptance g u r invite address recipient lease w ≡ done result v
      → Keeps invite address recipient w v
        × (result ≡ record {
          binding = binding_of g u r invite address recipient;
          lease = lease;
          recipient_public = recipient;
        })
  unfolding keep_acceptance
  keep_acceptance-done invite address recipient lease result w v h =
      let b = binding_of g u r invite address recipient in
      elim (Result-cases (validate_remote b)) [
        | inr (x, invalid) ↦ absurd (ground arith)
        | inl (_, valid) ↦ elim (Outcome-cases (put_binding r b w)) [
          | inr (x, z, refused) ↦ absurd (ground arith)
          | inl (_, z, put) ↦
              elim (Outcome-cases (cache_quietly g u invite.audience_pipe_id lease z)) [
                | inr (x, y, lost) ↦
                    absurd
                      (ground (arith, cache_quietly-failed invite.audience_pipe_id lease x z y))
                | inl (_, y, cached) ↦
                    let ends : y ≡ v = ground arith in
                    let is : result
                        ≡ record { binding = b; lease = lease; recipient_public = recipient } =
                      ground arith in
                    (
                      subst (Keeps invite address recipient w) ends (
                          Keeps-of_written invite address recipient w z y
                            (put_binding-done b w z put)
                            (cache_quietly-done invite.audience_pipe_id lease z y cached)),
                      is,
                    )
              ]
        ]
      ]
