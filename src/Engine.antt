-- ===== src/Engine.antt =====
-- internal/engine/engine.go: the traversal state of a chain of pipes, and one hop of it.
pub mod Traversal
pub mod Hop
use tubo.Base.{
  ℕ, ◌+◌, ◌-◌, Bool, false, ◌||◌, Option, List, [], ◌∷◌, ◌++◌, Bytes, same, contains_string, length,
  ltb, leb, ◌==◌, if◌then◌else◌, Result, ok, err, ◌>>=◌, ◌>>◌, fail_if, or_fail, map_err,
}
use tubo.Domain.Ref.{Ref, kind_service, kind_pipe}
use tubo.Domain.Model.{
  UrlLibrary, SpecError, ServiceSpec, PipeSpec, validate_service, validate_pipe,
}
use tubo.Domain.Graph.{Loaders, default_max_pipe_hops}

pub data EngineError : Type 0 where
  hop_limit_exceeded loop_detected invalid_target_kind : EngineError
  missing_pipe_target missing_service_target : EngineError
  invalid_pipe_definition invalid_service_definition : SpecError → EngineError
  opener_required open_failed dial_failed : EngineError

-- `Remaining` is a Go `int`; it is built from non-negative values and falls only where positive.
pub record TraversalState : Type 0 where
  pub visited_ids : List Bytes
  pub remaining : ℕ
  pub max_hops : ℕ

unfoldable pub new_traversal : Bytes → TraversalState
new_traversal pipe_id = record {
  visited_ids = pipe_id ∷ [];
  remaining = default_max_pipe_hops;
  max_hops = default_max_pipe_hops;
}

-- `Advance`.
unfoldable pub advance : TraversalState → Bytes → Result EngineError TraversalState
advance s pipe_id = do
  fail_if (s.remaining == 0) hop_limit_exceeded
  fail_if (contains_string pipe_id s.visited_ids) loop_detected
  ok (record s { visited_ids = s.visited_ids ++ (pipe_id ∷ []); remaining = s.remaining - 1 })

-- The loop of `FromWire` over the set `seen`.
unfoldable pub has_repeat : List Bytes → List Bytes → Bool
has_repeat seen [] = false
has_repeat seen (id ∷ ids) =
    let rest = has_repeat (id ∷ seen) ids in contains_string id seen || rest

-- `FromWire`; a wire hop limit of 0 stands for any that is not positive.
unfoldable pub from_wire : List Bytes → ℕ → Result EngineError TraversalState
from_wire visited hop_limit = do
  fail_if (hop_limit == 0 || ltb default_max_pipe_hops hop_limit) hop_limit_exceeded
  fail_if (has_repeat [] visited) loop_detected
  fail_if (leb hop_limit (length visited)) hop_limit_exceeded
  ok (record {
    visited_ids = visited;
    remaining = hop_limit - length visited;
    max_hops = hop_limit;
  })

-- What an engine is given: carriers and connections are names of the runtime's own. An opener is
-- absent where the Go value is nil, and answers with a carrier and a session id.
pub record Capabilities : Type 0 where
  pub urls : UrlLibrary
  pub loaders : Loaders
  pub dial_service : ServiceSpec → Option ℕ
  pub open_downstream : Option (PipeSpec → TraversalState → Option (ℕ × Bytes))

pub data ForwardResult : Type 0 where
  service_conn : ℕ → ForwardResult
  downstream : ℕ → Bytes → ForwardResult

module _ (c : Capabilities) where
  open c use {urls, loaders, dial_service, open_downstream}

  unfoldable pub forward_service_target : Ref → Result EngineError ForwardResult
  forward_service_target target = do
    svc ← or_fail (loaders.load_service target) missing_service_target
    map_err invalid_service_definition (validate_service urls svc)
    conn ← or_fail (dial_service svc) dial_failed
    ok (service_conn conn)

  unfoldable pub forward_pipe_target : Ref → TraversalState → Result EngineError ForwardResult
  forward_pipe_target target state = do
    next ← or_fail (loaders.load_pipe target) missing_pipe_target
    map_err invalid_pipe_definition (validate_pipe next)
    fail_if (contains_string next.pipe_id state.visited_ids) loop_detected
    fail_if (ltb state.remaining 1) hop_limit_exceeded
    opener ← or_fail open_downstream opener_required
    (carrier, session_id) ← or_fail (opener next state) open_failed
    ok (downstream carrier session_id)

  -- `Forward`.
  unfoldable pub forward : PipeSpec → TraversalState → Result EngineError ForwardResult
  unfolding forward_service_target forward_pipe_target
  forward current state =
      if same current.target.kind kind_service
      then forward_service_target current.target
      else if same current.target.kind kind_pipe
      then forward_pipe_target current.target state
      else err invalid_target_kind
