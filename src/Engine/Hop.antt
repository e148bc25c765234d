-- ===== src/Engine/Hop.antt =====
-- What one hop of internal/engine/engine.go needs and does.
use tubo.Base.{ℕ, ◌≤◌, ◌≡◌, ◌↔◌, false, Option, some, arith, Bytes, same_iff, contains_string, ok}
use tubo.Domain.Ref.{kind_service, kind_pipe}
use tubo.Domain.Model.{PipeSpec, ServiceSpec, validate_service, validate_pipe}
use tubo.Engine.{Capabilities, TraversalState, service_conn, downstream, forward}

module _ (c : Capabilities) (current : PipeSpec) (state : TraversalState) where
  open c use {urls, loaders, dial_service, open_downstream}

  -- A hop ends in a session of a downstream pipe exactly when the target is a pipe whose valid
  -- specification names a pipe that the chain has not entered, a hop is left, and the opener, at
  -- that specification and this state, gives that session.
  pub forward_downstream_iff :
      (carrier : ℕ) (session_id : Bytes)
      → (forward c current state ≡ ok (downstream carrier session_id)) ↔ (
          (current.target.kind ≡ kind_pipe)
          × ((next : PipeSpec) × (loaders.load_pipe current.target ≡ some next)
              × (validate_pipe next ≡ ok tt)
              × (contains_string next.pipe_id state.visited_ids ≡ false)
              × (1 ≤ state.remaining)
              × ((opener : PipeSpec → TraversalState → Option (ℕ × Bytes)) × (open_downstream
                    ≡ some opener)
                  × (opener next state ≡ some (carrier, session_id)))))
  unfolding forward
  forward_downstream_iff carrier session_id = (
    λ h.
        ground (
          arith,
          same_iff current.target.kind kind_pipe,
          same_iff current.target.kind kind_service,
        ),
    λ h.
        ground (
          arith,
          same_iff current.target.kind kind_pipe,
          same_iff current.target.kind kind_service,
        ),
  )

  -- A hop ends at a local endpoint exactly when the target is a service whose valid specification
  -- dials to it; the traversal state and the opener play no part.
  pub forward_service_iff :
      (conn : ℕ)
      → (forward c current state ≡ ok (service_conn conn)) ↔ (
          (current.target.kind ≡ kind_service)
          × ((svc : ServiceSpec) × (loaders.load_service current.target ≡ some svc)
              × (validate_service urls svc ≡ ok tt)
              × (dial_service svc ≡ some conn)))
  unfolding forward
  forward_service_iff conn = (
    λ h.
        ground (
          arith,
          same_iff current.target.kind kind_pipe,
          same_iff current.target.kind kind_service,
        ),
    λ h.
        ground (
          arith,
          same_iff current.target.kind kind_pipe,
          same_iff current.target.kind kind_service,
        ),
  )
