-- ===== src/Exact.antt =====
-- internal/exactauthority and internal/runtime/exact_authorizer.go: the exact authority of a pipe,
-- and its three exchanges (redemption, renewal, opening) over the store's tables.
pub mod Redeem
pub mod Renew
pub mod Authorize
pub mod Bound
use tubo.Base.{
  ℕ, ◌/◌, Bool, not, ◌&&◌, ◌||◌, Option, Bytes, lit, same, has_prefix, length, any, leb, ◌==◌,
  Result, ok, ◌>>=◌, ◌>>◌, fail_if, or_fail, map_err,
}
use tubo.Credential.Binding.{new_owner_binding, verify_owner_authority}
use tubo.Credential.Encoding.{public_string, verify_pipe_owner}
use tubo.Credential.{OwnerAuthority, CredentialError, Library, OwnerBinding, max_pipe_id_len}

pub data ExactError : Type 0 where
  invalid_key_path foreign_pipe invalid_private_key authority_not_dedicated : ExactError
  key_unavailable : ExactError
  credential : CredentialError → ExactError
  dependency_missing : ExactError
  invalid_owner_binding owner_key_invalid owner_mismatch issuer_not_bound pipe_mismatch : ExactError
  authority_unavailable authority_mismatch not_one_time invalid_recipient invalid_pipe_id :
      ExactError
  missing_challenge invalid_proof : ExactError
  revocation_unavailable revoked epoch_unavailable epoch_stale : ExactError
  accepted_unavailable not_accepted : ExactError
  persistence_failed already_redeemed : ExactError
  denied no_authorizer : ExactError

pub record Authority : Type 0 where
  pub private : Bytes
  pub binding : OwnerBinding
  pub owner : OwnerAuthority

-- `Loader`: what the key file holds, if `localkey.Load` accepts it, and the owner's binding.
pub record Loader : Type 0 where
  pub stored_key : Option Bytes
  pub binding : OwnerBinding

-- `LocalOwnerWorkflow`, with the key that `localkey.Provision` creates or loads.
pub record LocalOwnerWorkflow : Type 0 where
  pub provisioned_key : Option Bytes
  pub pipe_id : Bytes
  pub epoch : ℕ
  pub redemption_peers : Bytes
  pub redemption_protocol : Bytes

-- `validPipeIDComponent`.
unfoldable pub valid_pipe_id_component : Bytes → Bool
valid_pipe_id_component pipe_id =
    has_prefix (lit "pip_") pipe_id
    && not (any (λ c. c == b'/' || c == 92) pipe_id)
    && leb (length pipe_id) max_pipe_id_len

module _ (g : Library) where
  open g use {ed_public}

  -- `fromBinding`.
  unfoldable pub from_binding : Bytes → OwnerBinding → Result ExactError Authority
  from_binding private binding = do
    fail_if (not (length private == 64)) invalid_private_key
    owner ←
        map_err credential (verify_owner_authority g binding (public_string g (ed_public private)))
    fail_if (same owner.authority_key owner.owner) authority_not_dedicated
    ok (record { private = private; binding = binding; owner = owner })

  -- `Loader.Load`.
  unfoldable pub load : Loader → Result ExactError Authority
  load loader = do
    private ← or_fail loader.stored_key key_unavailable
    from_binding private loader.binding

  -- `LocalOwnerWorkflow.Provision`.
  unfoldable pub provision : LocalOwnerWorkflow → Bytes → Result ExactError Authority
  provision w owner_private = do
    fail_if (not (verify_pipe_owner g w.pipe_id (ed_public owner_private))) foreign_pipe
    private ← or_fail w.provisioned_key key_unavailable
    binding ← map_err credential (
        new_owner_binding g owner_private (ed_public private) w.pipe_id w.epoch w.redemption_peers
          w.redemption_protocol)
    from_binding private binding
