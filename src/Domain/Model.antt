-- ===== src/Domain/Model.antt =====
-- internal/domain/model.go: services, pipes, accepted remote bindings and their validation.
use tubo.Base.{
  ℕ, Bool, not, ◌&&◌, ◌||◌, Option, none, some, List, Bytes, lit, same, is_empty, has_prefix,
  trim_space, length, ltb, if◌then◌else◌, Result, ok, err, ◌>>◌, fail_if, map_err,
}
use tubo.Domain.Ref.{
  Ref, RefError, validate_ref, require_kind, kind_service, kind_pipe, name_matches,
}

-- `net/url` and `net` of Go's library, as far as `Validate` asks: the scheme and host that
-- `url.Parse` finds, and whether `net.SplitHostPort` succeeds.
pub record UrlLibrary : Type 0 where
  pub parse_url : Bytes → Option (Bytes × Bytes)
  pub splits_host_port : Bytes → Bool

pub data SpecError : Type 0 where
  bad_ref bad_target_ref : RefError → SpecError
  bad_cluster bad_namespace : SpecError
  target_required http_target_required tcp_target_required bad_host_port : SpecError
  unix_target_required unsupported_kind : SpecError
  bad_target_kind self_target bad_scope : SpecError
  listen_required host_required unsupported_ingress : SpecError
  unsupported_visibility unsupported_access discoverable_without_tubo : SpecError
  bad_remote_pipe_id bad_authority_public bad_owner_binding bad_locator : SpecError
  bad_recipient_public bad_source : SpecError

pub record Scope : Type 0 where
  pub cluster : Bytes
  pub namespace : Bytes

-- `Scope.Validate`.
unfoldable pub validate_scope : Scope → Result SpecError (Unit {0})
validate_scope s = do
  fail_if (not (name_matches s.cluster)) bad_cluster
  fail_if (not (name_matches s.namespace)) bad_namespace

pub record ServiceSpec : Type 0 where
  pub ref : Ref
  pub kind : Bytes
  pub target : Bytes
  pub description : Bytes
  pub metadata : List (Bytes × Bytes)

-- The `switch` of `ServiceSpec.Validate` over the kind, at the trimmed target.
unfoldable pub validate_target : UrlLibrary → Bytes → Bytes → Result SpecError (Unit {0})
validate_target u kind target =
    if same kind (lit "http")
    then elim (u.parse_url target) [
      | none ↦ err http_target_required
      | some (scheme, host) ↦
          fail_if
            (is_empty host || (not (same scheme (lit "http")) && not (same scheme (lit "https"))))
            http_target_required
    ]
    else if same kind (lit "tcp")
    then elim (u.parse_url target) [
      | none ↦ err tcp_target_required
      | some (scheme, host) ↦ do
        fail_if (not (same scheme (lit "tcp")) || is_empty host) tcp_target_required
        fail_if (not (u.splits_host_port host)) bad_host_port
    ]
    else if same kind (lit "unix")
    then fail_if (not (has_prefix (lit "unix:///") target)) unix_target_required
    else err unsupported_kind

-- `ServiceSpec.Validate`.
unfoldable pub validate_service : UrlLibrary → ServiceSpec → Result SpecError (Unit {0})
validate_service u s = do
  map_err bad_ref (require_kind s.ref kind_service)
  let target = trim_space s.target
  fail_if (is_empty target) target_required
  validate_target u s.kind target

pub record PipeIngress : Type 0 where
  pub kind : Bytes
  pub listen : Bytes
  pub host : Bytes
  pub path : Bytes
  pub protocol : Bytes

pub record PipeSpec : Type 0 where
  pub ref : Ref
  pub pipe_id : Bytes
  pub scope : Option Scope
  pub ingress : PipeIngress
  pub target : Ref
  pub visibility : Bytes
  pub access : Bytes
  pub allow_reexport : Bool
  pub created_at : ℕ
  pub updated_at : ℕ

-- `p.Target == p.Ref` on the two struct values.
abbrev pub same_ref : Ref → Ref → Bool
same_ref a b = same a.kind b.kind && same a.name b.name

abbrev pub ingress_tubo : Bytes
ingress_tubo = lit "tubo"

unfoldable pub validate_ingress : PipeIngress → Result SpecError (Unit {0})
validate_ingress i =
    if same i.kind (lit "local")
    then fail_if (is_empty (trim_space i.listen)) listen_required
    else if same i.kind ingress_tubo
    then ok tt
    else if same i.kind (lit "http-route")
    then fail_if (is_empty (trim_space i.host)) host_required
    else err unsupported_ingress

abbrev validate_scope? : Option Scope → Result SpecError (Unit {0})
validate_scope? none = ok tt
validate_scope? (some s) = map_err (λ _. bad_scope) (validate_scope s)

-- `PipeSpec.Validate`.
unfoldable pub validate_pipe : PipeSpec → Result SpecError (Unit {0})
validate_pipe p = do
  map_err bad_ref (require_kind p.ref kind_pipe)
  map_err bad_target_ref (validate_ref p.target)
  fail_if (not (same p.target.kind kind_service) && not (same p.target.kind kind_pipe))
      bad_target_kind
  fail_if (same_ref p.target p.ref) self_target
  validate_scope? p.scope
  validate_ingress p.ingress
  fail_if
      (not (
        same p.visibility (lit "private")
        || same p.visibility (lit "unlisted")
        || same p.visibility (lit "discoverable")))
      unsupported_visibility
  fail_if
      (not (
        same p.access (lit "invite_only")
        || same p.access (lit "members")
        || same p.access (lit "public")))
      unsupported_access
  fail_if (same p.visibility (lit "discoverable") && not (same p.ingress.kind ingress_tubo))
      discoverable_without_tubo

-- `PipeSpec.IsPublished`.
unfoldable pub is_published : PipeSpec → Bool
is_published p = same p.ingress.kind ingress_tubo && not (same p.visibility (lit "private"))

pub record RemotePipeBinding : Type 0 where
  pub remote_pipe_id : Bytes
  pub authority_public : Bytes
  pub owner_binding : Bytes
  pub locator : Bytes
  pub recipient_public : Bytes
  pub source : Bytes
  pub created_at : ℕ
  pub updated_at : ℕ

abbrev pub outside : ℕ → Bytes → Bool
outside bound s = is_empty s || ltb bound (length s)

-- `RemotePipeBinding.Validate`.
unfoldable pub validate_remote : RemotePipeBinding → Result SpecError (Unit {0})
validate_remote b = do
  fail_if (not (has_prefix (lit "pip_") b.remote_pipe_id) || ltb 256 (length b.remote_pipe_id))
      bad_remote_pipe_id
  fail_if (outside 4096 b.authority_public) bad_authority_public
  fail_if (outside 49152 b.owner_binding) bad_owner_binding
  fail_if (outside 4096 b.locator) bad_locator
  fail_if (outside 4096 b.recipient_public) bad_recipient_public
  fail_if (outside 64 b.source) bad_source

pub record AccessLeaseCache : Type 0 where
  pub remote_pipe_id : Bytes
  pub access_lease : Bytes
  pub expires_at : ℕ
