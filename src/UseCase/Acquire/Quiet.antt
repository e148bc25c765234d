-- ===== src/UseCase/Acquire/Quiet.antt =====
-- What access to an accepted remote pipe leaves alone (internal/usecase/accept.go).
use tubo.Base.{ℕ, ◌≡◌, refl, ◌∙◌, Option, some, none, List, [], ◌∷◌, arith, Bytes, Result, ok, err}
use tubo.Credential.{Library, ExactInvite, AccessLease}
use tubo.Domain.Model.{RemotePipeBinding}
use tubo.Store.Connections.{
  Connections, get_access_lease_cache, put_access_lease_cache, without_cached,
}
use tubo.UseCase.{
  UseCases, World, Readings, RenewalRequest, RemoteCall, UseError, acquired, redeemed, renewed,
}
use tubo.UseCase.Run.{Outcome, Run, continue, settle, failed, done}
use tubo.UseCase.Checks.{accepted_binding, verify_issued}
use tubo.UseCase.Accept.{acquire_carrier, renew_remotely, cache_lease}
use tubo.UseCase.Acquire.{cached_access, renewed_access, renew_access, acquire_accepted_pipe_access}

-- The invites among the remote calls that were redemptions.
abbrev pub redemptions : List RemoteCall → List ExactInvite
redemptions [] = []
redemptions (acquired address ∷ cs) = redemptions cs
redemptions (redeemed invite recipient ∷ cs) = invite ∷ redemptions cs
redemptions (renewed request ∷ cs) = redemptions cs

-- The definitions and the accepted remote pipes are as they were, and no invite was redeemed.
abbrev pub Quiet : World → World → Type 0
Quiet w v =
    (v.resources ≡ w.resources)
    × (v.connections.bindings ≡ w.connections.bindings)
    × (redemptions v.calls ≡ redemptions w.calls)

-- The tables at the end of a run, whether it is done or failed.
abbrev pub ending {ℓ} : {A : Type ℓ} → Outcome A → World
ending (done a w) = w
ending (failed e w) = w

Quiet-bind :
    {A B : Type 0} (w : World) (first : Outcome A) (next : A → Run B)
    → Quiet w (ending first)
    → ((a : A) (v : World) → Quiet v (ending (next a v)))
    → Quiet w (ending (continue first next))
Quiet-bind w (failed e v) next h k = h
Quiet-bind w (done a v) next h k =
    let (resources, bindings, calls) = k a v in (resources ∙ h.0, bindings ∙ h.1, calls ∙ h.2)

settle-Quiet :
    {A : Type 0} (answer : Result UseError A) (w : World) → Quiet w (ending (settle answer w))
settle-Quiet (err e) w = (refl, refl, refl)
settle-Quiet (ok a) w = (refl, refl, refl)

module _ (g : Library) (u : UseCases) (r : Readings) where
  get_access_lease_cache-bindings :
      (id : Bytes) (now : ℕ) (db : Connections)
      → (get_access_lease_cache id now db).1.bindings ≡ db.bindings
  unfolding get_access_lease_cache without_cached
  get_access_lease_cache-bindings id now db = ground arith

  cached_access-Quiet :
      (binding : RemotePipeBinding) (key id : Bytes) (w : World)
      → Quiet w (ending (cached_access g u r binding key id w))
  unfolding cached_access
  cached_access-Quiet binding key id w =
      ground (arith, get_access_lease_cache-bindings id r.cached_at w.connections)

  acquire_carrier-Quiet :
      (address : Bytes) (w : World) → Quiet w (ending (acquire_carrier u address w))
  unfolding acquire_carrier
  acquire_carrier-Quiet address w = ground arith

  renew_remotely-Quiet :
      (request : RenewalRequest) (w : World) → Quiet w (ending (renew_remotely u request w))
  unfolding renew_remotely
  renew_remotely-Quiet request w = ground arith

  cache_lease-Quiet :
      (id : Bytes) (lease : AccessLease) (w : World) → Quiet w (ending (cache_lease g u id lease w))
  unfolding cache_lease put_access_lease_cache
  cache_lease-Quiet id lease w = ground arith

  renew_access-Quiet :
      (binding : RemotePipeBinding) (id : Bytes) (found : Option AccessLease) (w : World)
      → Quiet w (ending (renew_access g u r binding id found w))
  unfolding renew_access renewed_access
  renew_access-Quiet binding id (some lease) w = (refl, refl, refl)
  renew_access-Quiet binding id none w =
      Quiet-bind w (acquire_carrier u binding.locator w) _ (acquire_carrier-Quiet binding.locator w)
        λ _ v. Quiet-bind v (renew_remotely u _ v) _ (renew_remotely-Quiet _ v) λ lease x.
          Quiet-bind x (settle (verify_issued g u r lease _ _ id) x) _ (settle-Quiet _ x) λ _ y.
            Quiet-bind y (cache_lease g u id lease y) _ (cache_lease-Quiet id lease y)
              λ _ z. (refl, refl, refl)

  -- Access to an accepted remote pipe, whether it is got or not, leaves the definitions and the accepted
  -- remote pipes as they were, and redeems no invite.
  pub acquire_accepted_pipe_access-Quiet :
      (id : Bytes) (w : World) → Quiet w (ending (acquire_accepted_pipe_access g u r id w))
  unfolding acquire_accepted_pipe_access
  acquire_accepted_pipe_access-Quiet id w =
      Quiet-bind w (settle (accepted_binding g u id w.connections) w) _ (settle-Quiet _ w)
        λ (binding, key) v.
          Quiet-bind v (cached_access g u r binding key id v) _
            (cached_access-Quiet binding key id v) λ found x. renew_access-Quiet binding id found x
