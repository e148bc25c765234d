-- ===== src/UseCase/Attach.antt =====
-- internal/usecase/attach.go: a service and the pipe that leads to it.
pub mod Durable
use tubo.Base.{Bool, false, ◌||◌, none, [], Bytes, lit, is_blank, map_err}
use tubo.Domain.Ref.{Ref, new_ref, kind_pipe, to_string}
use tubo.Domain.Model.{UrlLibrary, PipeSpec, PipeIngress, ingress_tubo}
use tubo.Credential.{Library}
use tubo.Credential.Encoding.{pipe_id_from_owner}
use tubo.UseCase.Target.{service_spec_from_target}
use tubo.Store.Resources.{SpecLibrary}
use tubo.UseCase.{UseCases, Readings, invalid_input, invalid_name, persistence_failed, owner_key}
use tubo.UseCase.Run.{
  Run, Lookup, present, missing, broken, failed, ◌>>=◌, ◌>>◌, give, lift, stop_if, upsert_service,
  upsert_pipe, get_pipe,
}

-- `AttachInput`; its `ScopeRef` is not read.
pub record AttachInput : Type 0 where
  pub name : Bytes
  pub target : Bytes

pub record AttachResult : Type 0 where
  pub service_ref : Ref
  pub pipe_ref : Ref
  pub pipe_id : Bytes
  pub created : Bool
  pub pipe_created : Bool

abbrev pub attached_ingress : PipeIngress
attached_ingress = record {
  kind = ingress_tubo;
  listen = [];
  host = [];
  path = [];
  protocol = lit "raw";
}

-- The pipe of a first `Attach`.
unfoldable pub attached_pipe : Library → Ref → Bytes → Ref → Readings → PipeSpec
attached_pipe g pipe_ref owner service_ref r = record {
  ref = pipe_ref;
  pipe_id = pipe_id_from_owner g (g.ed_public owner);
  scope = none;
  ingress = attached_ingress;
  target = service_ref;
  visibility = lit "unlisted";
  access = lit "invite_only";
  allow_reexport = false;
  created_at = r.spec_at;
  updated_at = r.spec_at;
}

-- The identity of a definition that exists for the reference is preserved.
abbrev pub keep_identity : PipeSpec → PipeSpec → PipeSpec
keep_identity spec old = record spec {
  pipe_id = old.pipe_id;
  created_at = old.created_at;
  updated_at = old.updated_at;
}

-- Step 3 of `Attach`: the durable definition of the pipe.
unfoldable pub define_pipe : SpecLibrary → Ref → Bool → PipeSpec → Bytes → Run AttachResult
define_pipe j service_ref created spec key = do
  pipe_created ← upsert_pipe j spec key
  give (record {
    service_ref = service_ref;
    pipe_ref = spec.ref;
    pipe_id = spec.pipe_id;
    created = created;
    pipe_created = pipe_created;
  })

-- The lookup before step 3.
unfoldable pub define_or_preserve :
    SpecLibrary → Ref → Bool → PipeSpec → Bytes → Lookup → Run AttachResult
define_or_preserve j service_ref created spec key (present old old_key) =
    define_pipe j service_ref created (keep_identity spec old) old_key
define_or_preserve j service_ref created spec key missing =
    define_pipe j service_ref created spec key
define_or_preserve j service_ref created spec key (broken e) = failed (persistence_failed e)

-- Steps 2 and 3 of `Attach`.
unfoldable pub attach_pipe :
    Library → SpecLibrary → UseCases → Readings → Ref → Bool → Ref → Run AttachResult
attach_pipe g j u r service_ref created pipe_ref = do
  (owner, key_file) ← lift (owner_key u pipe_ref)
  existing ← get_pipe j (to_string pipe_ref)
  define_or_preserve j service_ref created (attached_pipe g pipe_ref owner service_ref r) key_file
      existing

-- `Attach`.
unfoldable pub attach :
    Library → SpecLibrary → UrlLibrary → UseCases → Readings → AttachInput → Run AttachResult
attach g j l u r input = do
  stop_if (is_blank input.name || is_blank input.target) invalid_input
  service ← lift (service_spec_from_target l input.name input.target)
  created ← upsert_service j l service
  pipe_ref ← lift (map_err invalid_name (new_ref kind_pipe input.name))
  attach_pipe g j u r service.ref created pipe_ref
