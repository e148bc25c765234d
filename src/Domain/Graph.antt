-- ===== src/Domain/Graph.antt =====
-- internal/domain/graph.go: from a pipe to the service at its end.
pub mod Walks
use tubo.Base.{
  ℕ, zero, suc, ◌+◌, Option, List, [], ◌∷◌, ◌++◌, Bytes, same, contains_string, ◌==◌, if◌then◌else◌,
  Result, ok, err, ◌>>=◌, ◌>>◌, fail_if, or_fail, map_err,
}
use tubo.Domain.Ref.{Ref, RefError, require_kind, kind_service, kind_pipe, to_string}
use tubo.Domain.Model.{
  UrlLibrary, SpecError, ServiceSpec, PipeSpec, validate_service, validate_pipe,
}

pub data PathError : Type 0 where
  bad_start : RefError → PathError
  cycle : Ref → PathError
  load_failed : Ref → PathError
  bad_pipe : SpecError → PathError
  bad_service : SpecError → PathError
  bad_target_kind : PathError
  too_many_hops : PathError

pub record LogicalPath : Type 0 where
  pub pipes : List Ref
  pub terminal : Ref

abbrev pub default_max_pipe_hops : ℕ
default_max_pipe_hops = 8

-- `maxHops`, where 0 stands for any bound that is not positive.
abbrev pub hop_budget : ℕ → ℕ
hop_budget max_hops = if max_hops == 0 then default_max_pipe_hops else max_hops

-- `PipeLoader` and `ServiceLoader`, as the repository answers them; `none` is any error.
pub record Loaders : Type 0 where
  pub load_pipe : Ref → Option PipeSpec
  pub load_service : Ref → Option ServiceSpec

module _ (u : UrlLibrary) (l : Loaders) where
  open l use {load_pipe, load_service}

  -- What a hop does with a target that is a service: the path ends.
  unfoldable pub finish_path : List Ref → Ref → Result PathError LogicalPath
  finish_path pipes target = do
    service ← or_fail (load_service target) (load_failed target)
    map_err bad_service (validate_service u service)
    ok (record { pipes = pipes; terminal = service.ref })

  -- What a round does before it looks at the target: the cycle test, the load, the validation.
  unfoldable pub load_hop : List Bytes → Ref → Result PathError PipeSpec
  load_hop visited current = do
    fail_if (contains_string (to_string current) visited) (cycle current)
    pipe ← or_fail (load_pipe current) (load_failed current)
    map_err bad_pipe (validate_pipe pipe)
    ok pipe

  -- The loop of `ResolveLogicalPath`. The fuel is `maxHops - hop`, the rounds that are left.
  unfoldable pub resolve_from : ℕ → List Bytes → List Ref → Ref → Result PathError LogicalPath
  resolve_from zero visited pipes current = err too_many_hops
  resolve_from (suc hops) visited pipes current = elim (load_hop visited current) [
    | err e ↦ err e
    | ok pipe ↦
        let pipes' = pipes ++ (pipe.ref ∷ []) in
        let next = resolve_from hops (to_string current ∷ visited) pipes' pipe.target in
        if same pipe.target.kind kind_pipe
        then next
        else if same pipe.target.kind kind_service
        then finish_path pipes' pipe.target
        else err bad_target_kind
  ]

  -- `ResolveLogicalPath`; both loaders are given.
  unfoldable pub resolve_logical_path : Ref → ℕ → Result PathError LogicalPath
  resolve_logical_path start max_hops = do
    map_err bad_start (require_kind start kind_pipe)
    resolve_from (hop_budget max_hops) [] [] start
