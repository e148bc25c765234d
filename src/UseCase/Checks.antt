-- ===== src/UseCase/Checks.antt =====
-- internal/usecase/accept.go and connect.go: what is checked without a write or a remote call.
use tubo.Base.{
  Bool, true, false, not, ◌&&◌, ◌||◌, Option, none, some, [], Bytes, lit, same, is_empty, is_blank,
  if◌then◌else◌, Result, ok, err, ◌>>=◌, ◌>>◌, fail_if, or_fail, map_err,
}
use tubo.Domain.Ref.{Ref, kind_pipe, to_string}
use tubo.Domain.Model.{PipeSpec, RemotePipeBinding, validate_remote}
use tubo.Credential.{Library, ExactInvite, AccessLease}
use tubo.Credential.Encoding.{public_string, public_from_string, pipe_id_from_owner}
use tubo.Credential.Invite.{verify_invite, decode_invite}
use tubo.Credential.Lease.{verify_lease}
use tubo.Store.Connections.{Connections, ConnectionError, not_found, get_remote_pipe_binding}
use tubo.Store.Resources.{SpecLibrary, Resources, pipe}
use tubo.UseCase.{
  UseCases, Readings, UseError, recipient_key_file, recipient_ref_for, invalid_input, invalid_name,
  invalid_binding, key_failed, denied, persistence_unavailable, persistence_failed, binding_failed,
  no_accepted_binding, no_accepted_identity, different_target, different_identity, not_local,
  different_listener, different_name,
}
use tubo.UseCase.Run.{Lookup, present, missing, broken, looked_up}

-- `ConnectExactInput`.
pub record ConnectExactInput : Type 0 where
  pub invite : Bytes
  pub remote_pipe_id : Bytes
  pub local_listen : Bytes
  pub name : Bytes

abbrev pub is_wired {ℓ} : {A : Type ℓ} → Option A → Bool
is_wired none = false
is_wired (some _) = true

-- How an error of `u.Bindings.Get` is reported.
abbrev pub binding_error : ConnectionError → UseError
binding_error not_found = no_accepted_binding
binding_error e = binding_failed e

-- Steps 1 of `AcquireAcceptedPipeAccess`: the durable binding, and the key of its authority.
unfoldable pub accepted_binding :
    Library → UseCases → Bytes → Connections → Result UseError (RemotePipeBinding × Bytes)
accepted_binding g u remote_pipe_id db = do
  fail_if (is_blank remote_pipe_id) invalid_input
  fail_if (not u.has_bindings) persistence_unavailable
  binding ← map_err binding_error (get_remote_pipe_binding remote_pipe_id db)
  map_err invalid_binding (validate_remote binding)
  key ← map_err denied (public_from_string g binding.authority_public)
  ok (binding, key)

-- `exactConnectConflict`.
unfoldable pub exact_connect_conflict :
    PipeSpec → Bytes → Bytes → Bytes → Result UseError (Unit {0})
exact_connect_conflict old canonical_pipe_id audience listen = do
  fail_if (not (same old.target.kind kind_pipe) || not (same old.target.name audience))
      different_target
  fail_if (not (same old.pipe_id canonical_pipe_id)) different_identity
  fail_if (not (same old.ingress.kind (lit "local"))) not_local
  fail_if (not (same old.ingress.listen listen)) different_listener

-- The first checks of `ConnectExact`.
unfoldable pub check_connect_input : UseCases → ConnectExactInput → Result UseError (Unit {0})
check_connect_input u input = do
  fail_if (is_blank input.local_listen) invalid_input
  fail_if (is_blank u.secrets) invalid_input
  fail_if (not (is_empty input.invite) && not (is_empty input.remote_pipe_id)) invalid_input
  fail_if (is_empty input.invite && is_empty input.remote_pipe_id) invalid_input
  fail_if (not u.has_bindings) persistence_unavailable

module _ (g : Library) (u : UseCases) (r : Readings) where
  -- The recipient's printed key, at what `localkey.Provision` gives.
  unfoldable pub provision_recipient : Bytes → Result UseError Bytes
  provision_recipient pipe_id = do
    private ← or_fail (u.provision_key (recipient_key_file u pipe_id)) key_failed
    ok (public_string g (g.ed_public private))

  -- The identity that was accepted, at what `localkey.Load` gives.
  unfoldable pub load_recipient : Bytes → Result UseError Bytes
  load_recipient pipe_id = do
    private ← or_fail (u.load_key (recipient_key_file u pipe_id)) no_accepted_identity
    ok (public_string g (g.ed_public private))

  -- An encoded invite that is valid now.
  unfoldable pub read_invite : Bytes → Result UseError ExactInvite
  read_invite encoded = do
    invite ← map_err denied (decode_invite g encoded)
    map_err denied (verify_invite g invite r.now r.wall invite.audience_pipe_id)
    ok invite

  -- `lease.Verify` against the printed key of the issuer, after what is remote.
  unfoldable pub verify_issued : AccessLease → Bytes → Bytes → Bytes → Result UseError (Unit {0})
  verify_issued lease issuer recipient_public pipe_id = do
    key ← map_err denied (public_from_string g issuer)
    map_err denied (verify_lease g lease key recipient_public pipe_id r.later r.wall)

  -- `recipientPublicBytes`.
  abbrev pub recipient_public_bytes : Bytes → Bytes
  recipient_public_bytes public = elim (public_from_string g public) [ ok key ↦ key | err _ ↦ [] ]

  -- The local pipe of a fresh connection.
  unfoldable pub local_pipe : Ref → Bytes → Bytes → Bytes → PipeSpec
  local_pipe ref target_pipe_id recipient_public listen = record {
    ref = ref;
    pipe_id = pipe_id_from_owner g (recipient_public_bytes recipient_public);
    scope = none;
    ingress = record { kind = lit "local"; listen = listen; host = []; path = []; protocol = [] };
    target = record { kind = kind_pipe; name = target_pipe_id };
    visibility = lit "private";
    access = lit "invite_only";
    allow_reexport = false;
    created_at = r.spec_at;
    updated_at = r.spec_at;
  }

-- The local pipe of a connection, its key file, and whether it is stored already.
pub record LocalPipe : Type 0 where
  pub spec : PipeSpec
  pub key_file : Bytes
  pub stored : Bool

abbrev fresh : PipeSpec → Bytes → LocalPipe
fresh spec key_file = record { spec = spec; key_file = key_file; stored = false }

abbrev reused : PipeSpec → Bytes → LocalPipe
reused spec key_file = record { spec = spec; key_file = key_file; stored = true }

-- The lookup by the canonical identifier, where the reference is free.
unfoldable pub reuse_identity :
    ConnectExactInput → PipeSpec → Bytes → Bytes → Lookup → Result UseError LocalPipe
reuse_identity input spec key_file target_pipe_id (present old old_key) = do
  exact_connect_conflict old spec.pipe_id target_pipe_id input.local_listen
  fail_if (not (is_empty input.name)) different_name
  ok (reused old old_key)
reuse_identity input spec key_file target_pipe_id missing = ok (fresh spec key_file)
reuse_identity input spec key_file target_pipe_id (broken e) = err (persistence_failed e)

-- The lookup by the reference.
unfoldable pub reuse_reference :
    SpecLibrary
    → ConnectExactInput
    → PipeSpec
    → Bytes
    → Bytes
    → Resources
    → Lookup
    → Result UseError LocalPipe
reuse_reference j input spec key_file target_pipe_id db (present old old_key) = do
  exact_connect_conflict old spec.pipe_id target_pipe_id input.local_listen
  ok (reused old old_key)
reuse_reference j input spec key_file target_pipe_id db missing =
    reuse_identity input spec key_file target_pipe_id (looked_up (pipe j spec.pipe_id db))
reuse_reference j input spec key_file target_pipe_id db (broken e) = err (persistence_failed e)

-- What `ConnectExact` has found before it uses the invite or the binding.
pub record Plan : Type 0 where
  pub invite : Option ExactInvite
  pub target_pipe_id : Bytes
  pub recipient_public : Bytes
  pub local : LocalPipe

module _ (g : Library) (j : SpecLibrary) (u : UseCases) (r : Readings) where
  -- From the recipient's identity to the local pipe.
  unfoldable pub plan_local :
      ConnectExactInput → Option ExactInvite → Bytes → Bytes → Resources → Result UseError Plan
  plan_local input invite target_pipe_id recipient_public db = do
    ref ← map_err invalid_name (recipient_ref_for target_pipe_id input.name)
    let spec : PipeSpec = local_pipe g u r ref target_pipe_id recipient_public input.local_listen
    local ←
        reuse_reference j input spec (recipient_key_file u target_pipe_id) target_pipe_id db
          (looked_up (pipe j (to_string ref) db))
    ok (record {
      invite = invite;
      target_pipe_id = target_pipe_id;
      recipient_public = recipient_public;
      local = local;
    })

  -- `ConnectExact` up to the use of the invite or the binding.
  unfoldable pub plan_connect : ConnectExactInput → Resources → Result UseError Plan
  plan_connect input db = do
    check_connect_input u input
    if not (is_empty input.invite)
        then (do
          invite ← read_invite g u r input.invite
          recipient_public ← provision_recipient g u r invite.audience_pipe_id
          plan_local input (some invite) invite.audience_pipe_id recipient_public db)
        else (do
          recipient_public ← load_recipient g u r input.remote_pipe_id
          plan_local input none input.remote_pipe_id recipient_public db)
