-- ===== src/UseCase/Connect.antt =====
-- internal/usecase/connect.go: a local pipe to a remote one.
pub mod Planned
pub mod Ready
pub mod Joined
use tubo.Base.{
  not, Option, none, some, Bytes, same, if◌then◌else◌, Result, ok, err, map_err, fail_if,
}
use tubo.Base
use tubo.Domain.Ref.{Ref}
use tubo.Credential.{Library, ExactInvite}
use tubo.Store.Connections.{Connections, get_remote_pipe_binding}
use tubo.Store.Resources.{SpecLibrary}
use tubo.UseCase.{UseCases, Readings, UseError, identity_mismatch}
use tubo.UseCase.Run.{Run, ◌>>=◌, ◌>>◌, give, look, upsert_pipe}
use tubo.UseCase.Checks.{ConnectExactInput, LocalPipe, Plan, binding_error, plan_connect}
use tubo.UseCase.Accept.{accept_verified}
use tubo.UseCase.Acquire.{acquire_accepted_pipe_access}

pub record ConnectExactResult : Type 0 where
  pub pipe_ref : Ref
  pub pipe_id : Bytes
  pub target_pipe_id : Bytes
  pub local_listen : Bytes

module _ (g : Library) (j : SpecLibrary) (u : UseCases) (r : Readings) where
  -- The binding of the identity that connects.
  unfoldable pub check_identity : Plan → Connections → Result UseError (Unit {0})
  check_identity plan db =
      elim (map_err binding_error (get_remote_pipe_binding plan.target_pipe_id db)) [
        | err e ↦ err e
        | ok binding ↦
            fail_if (not (same binding.recipient_public plan.recipient_public)) identity_mismatch
      ]

  -- The one use of the invite, or the access to what was accepted.
  unfoldable pub establish : Plan → Option ExactInvite → Run (Unit {0})
  establish plan (some invite) = do _ ← accept_verified g u r invite; give tt
  establish plan none = do
    look (λ w. check_identity plan w.connections)
    _ ← acquire_accepted_pipe_access g u r plan.target_pipe_id
    give tt

  -- The local pipe is written where it is not stored yet.
  unfoldable pub store_local : LocalPipe → Run (Unit {0})
  store_local local =
      if local.stored then give tt else (do _ ← upsert_pipe j local.spec local.key_file; give tt)

  unfoldable pub connect_planned : Plan → Run ConnectExactResult
  connect_planned plan = do
    establish plan plan.invite
    store_local plan.local
    give (record {
      pipe_ref = plan.local.spec.ref;
      pipe_id = plan.local.spec.pipe_id;
      target_pipe_id = plan.target_pipe_id;
      local_listen = plan.local.spec.ingress.listen;
    })

  -- `ConnectExact`.
  unfoldable pub connect_exact : ConnectExactInput → Run ConnectExactResult
  connect_exact input = do
    plan ← look (λ w. plan_connect g j u r input w.resources)
    connect_planned plan
