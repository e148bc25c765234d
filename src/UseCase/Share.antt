-- ===== src/UseCase/Share.antt =====
-- internal/usecase/share.go: an invite to an owned pipe. Sharing writes no table, so it is a function of
-- the definitions; the key of the exact authority is a file.
pub mod Owned
use tubo.Base.{
  ℕ, not, ◌||◌, Option, ◌∷◌, [], ◌++◌, Bytes, lit, same, is_empty, is_blank, trim_space, Result, ok,
  err, ◌>>=◌, ◌>>◌, fail_if, or_fail, map_err,
}
use tubo.Domain.Ref.{Ref}
use tubo.Domain.Model.{PipeSpec}
use tubo.Credential.{Library}
use tubo.Credential.Encoding.{pipe_id_from_owner}
use tubo.Credential.Invite.{new_exact_invite, encode_invite}
use tubo.Exact.{ExactError, Authority, invalid_key_path, valid_pipe_id_component, provision}
use tubo.Store.Resources.{SpecLibrary, Resources, pipe}
use tubo.UseCase.{
  UseCases, UseError, Readings, default_invite_ttl, pipe_not_found, persistence_failed, key_failed,
  not_owner, runtime_unavailable, locator_failed, epoch_failed, authority_failed, denied,
}
use tubo.UseCase.Run.{Lookup, present, missing, broken, looked_up}

pub record ShareExactResult : Type 0 where
  pub pipe_ref : Ref
  pub pipe_id : Bytes
  pub invite : Bytes
  pub expires_at : ℕ

-- `exactauthority.KeyPath`.
unfoldable pub key_path : UseCases → Bytes → Result ExactError Bytes
key_path u pipe_id = do
  fail_if (is_empty u.secrets || not (valid_pipe_id_component pipe_id)) invalid_key_path
  ok (u.join (u.secrets ∷ lit "exact-authorities" ∷ (pipe_id ++ lit ".key") ∷ []))

abbrev pub loaded : Lookup → Result UseError (PipeSpec × Bytes)
loaded (present spec key) = ok (spec, key)
loaded missing = err pipe_not_found
loaded (broken e) = err (persistence_failed e)

-- The pipe and the owner's private key, which derives the pipe's identifier.
unfoldable pub owned_pipe :
    Library → SpecLibrary → UseCases → Bytes → Resources → Result UseError (PipeSpec × Bytes)
owned_pipe g j u pipe_ref db = do
  (spec, key_file) ← loaded (looked_up (pipe j pipe_ref db))
  owner ← or_fail (u.load_key key_file) key_failed
  fail_if (not (same (pipe_id_from_owner g (g.ed_public owner)) spec.pipe_id)) not_owner
  ok (spec, owner)

-- The address at which the owner's runtime redeems.
unfoldable pub redemption_locator : UseCases → PipeSpec → Result UseError Bytes
redemption_locator u spec = do
  locate ← or_fail u.owner_locator runtime_unavailable
  address ← or_fail (locate spec.ref spec.pipe_id) locator_failed
  fail_if (is_empty (trim_space address)) runtime_unavailable
  fail_if (is_blank u.redemption_protocol) runtime_unavailable
  ok (trim_space address)

-- The pipe's current access epoch.
unfoldable pub current_epoch : UseCases → PipeSpec → Result UseError ℕ
current_epoch u spec = do
  reader ← or_fail u.exact_epoch runtime_unavailable
  or_fail (reader spec.pipe_id) epoch_failed

-- The provisioned authority, at the key file that `KeyPath` names.
unfoldable pub provision_authority :
    Library → UseCases → PipeSpec → Bytes → Bytes → ℕ → Result UseError Authority
provision_authority g u spec owner address epoch = map_err authority_failed (do
  path ← key_path u spec.pipe_id
  provision g
      (record {
        provisioned_key = u.provision_key path;
        pipe_id = spec.pipe_id;
        epoch = epoch;
        redemption_peers = address;
        redemption_protocol = u.redemption_protocol;
      })
      owner)

-- The invite of the authority at the epoch; `random` is what `rand.Read` yields.
unfoldable pub mint_share :
    Library → Readings → Option Bytes → PipeSpec → Authority → ℕ → Result UseError ShareExactResult
mint_share g r random spec authority epoch = do
  invite ← map_err denied (
      new_exact_invite g authority.private authority.binding spec.pipe_id r.now default_invite_ttl
        epoch random)
  encoded ← map_err denied (encode_invite g invite)
  ok (record {
    pipe_ref = spec.ref;
    pipe_id = spec.pipe_id;
    invite = encoded;
    expires_at = invite.expires_at;
  })

-- The owned pipe, its provisioned authority and its epoch.
unfoldable pub shared_authority :
    Library
    → SpecLibrary
    → UseCases
    → Bytes
    → Resources
    → Result UseError (PipeSpec × Authority × ℕ)
shared_authority g j u pipe_ref db = do
  (spec, owner) ← owned_pipe g j u pipe_ref db
  address ← redemption_locator u spec
  epoch ← current_epoch u spec
  authority ← provision_authority g u spec owner address epoch
  ok (spec, authority, epoch)

-- `ShareExact`.
unfoldable pub share_exact :
    Library
    → SpecLibrary
    → UseCases
    → Readings
    → Option Bytes
    → Bytes
    → Resources
    → Result UseError ShareExactResult
share_exact g j u r random pipe_ref db = do
  (spec, authority, epoch) ← shared_authority g j u pipe_ref db
  mint_share g r random spec authority epoch
