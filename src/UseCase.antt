-- ===== src/UseCase.antt =====
-- internal/usecase/usecase.go, capabilities.go and repository.go: what the use cases are given, over
-- the tables of the store, as internal/store/usecaseports.go adapts them.
pub mod Run
pub mod Target
pub mod Attach
pub mod Share
pub mod Checks
pub mod Accept
pub mod Acquire
pub mod Connect
use tubo.Base.{
  ℕ, Bool, not, Option, List, [], ◌∷◌, ◌++◌, Bytes, lit, is_empty, is_blank, trim_space, take, ◌==◌,
  if◌then◌else◌, Result, ok, or_fail, map_err, fail_if, ◌>>=◌, ◌>>◌,
}
use tubo.Domain.Ref.{Ref, RefError, new_ref, kind_pipe}
use tubo.Domain.Model.{SpecError}
use tubo.Credential.{Library, CredentialError, ExactInvite, AccessLease}
use tubo.Credential.Binding.{decode_owner_binding}
use tubo.Exact.{ExactError}
use tubo.Store.Resources.{Resources, ResourceError}
use tubo.Store.Connections.{Connections, ConnectionError}

-- `RenewalRequest`.
pub record RenewalRequest : Type 0 where
  pub pipe_id : Bytes
  pub recipient_public : Bytes
  pub owner_binding : Bytes

-- A call on an injected capability that leaves the machine, as it is made.
pub data RemoteCall : Type 0 where
  acquired : Bytes → RemoteCall
  redeemed : ExactInvite → Bytes → RemoteCall
  renewed : RenewalRequest → RemoteCall

-- The tables, and the remote calls that were made, the last one first.
pub record World : Type 0 where
  pub resources : Resources
  pub connections : Connections
  pub calls : List RemoteCall

-- `UseCases`. The files of internal/localkey and the capabilities enter as what they answer in the
-- course of one call, and a capability that is nil is absent. `join` is `filepath.Join`.
pub record UseCases : Type 0 where
  pub secrets : Bytes
  pub join : List Bytes → Bytes
  pub provision_key : Bytes → Option Bytes
  pub load_key : Bytes → Option Bytes
  pub owner_locator : Option (Ref → Bytes → Option Bytes)
  pub exact_epoch : Option (Bytes → Option ℕ)
  pub redemption_protocol : Bytes
  pub redemption : Option (ExactInvite → Bytes → Option AccessLease)
  pub renewal : Option (RenewalRequest → Option AccessLease)
  pub reach : Option (Bytes → Bool)
  pub has_bindings : Bool
  pub has_lease_cache : Bool

-- The readings of the clock in one call, in the order of the code: for what is given, for the times of a
-- specification, for the cached lease, after what is remote, and in the tables; `wall` is what
-- `Verify` reads where `u.now()` is the zero time.
pub record Readings : Type 0 where
  pub now : ℕ
  pub spec_at : ℕ
  pub cached_at : ℕ
  pub later : ℕ
  pub stored_at : ℕ
  pub wall : ℕ

pub data UseError : Type 0 where
  invalid_input : UseError
  invalid_name : RefError → UseError
  invalid_service : SpecError → UseError
  pipe_not_found : UseError
  persistence_failed : ResourceError → UseError
  binding_failed : ConnectionError → UseError
  key_failed locator_failed epoch_failed encode_failed : UseError
  authority_failed : ExactError → UseError
  denied : CredentialError → UseError
  not_owner no_accepted_binding no_accepted_identity identity_mismatch : UseError
  invalid_binding : SpecError → UseError
  redemption_failed renewal_failed : UseError
  runtime_unavailable reachability_unavailable redemption_unavailable renewal_unavailable : UseError
  persistence_unavailable pipe_unreachable : UseError
  different_target different_identity not_local different_listener different_name : UseError

abbrev pub default_invite_ttl : ℕ
default_invite_ttl = 600_000_000_000

-- `filepath.Join(u.Secrets, "pipes", …)` of `ownerKey`, and of the recipient's identity.
abbrev pub owner_key_file : UseCases → Ref → Bytes
owner_key_file u ref = u.join (u.secrets ∷ lit "pipes" ∷ (ref.name ++ lit ".key") ∷ [])

abbrev pub recipient_key_file : UseCases → Bytes → Bytes
recipient_key_file u pipe_id =
    u.join (u.secrets ∷ lit "pipes" ∷ (lit "connect-" ++ pipe_id ++ lit ".key") ∷ [])

-- `ownerKey`.
unfoldable pub owner_key : UseCases → Ref → Result UseError (Bytes × Bytes)
owner_key u ref = do
  fail_if (is_blank u.secrets) invalid_input
  private ← or_fail (u.provision_key (owner_key_file u ref)) key_failed
  ok (private, owner_key_file u ref)

-- `strings.Cut(s, ",")`, the text before the first comma.
unfoldable pub before_comma : Bytes → Bytes
before_comma [] = []
before_comma (c ∷ s) = let rest = before_comma s in if c == b',' then [] else c ∷ rest

-- `redemptionAddress`.
unfoldable pub redemption_address : Library → ExactInvite → Result UseError Bytes
redemption_address g invite = do
  fail_if (is_empty invite.binding) invalid_input
  binding ← map_err (λ _. invalid_input) (decode_owner_binding g invite.binding)
  fail_if (is_empty binding.redemption_peers) invalid_input
  fail_if (is_blank (before_comma binding.redemption_peers)) invalid_input
  ok (trim_space (before_comma binding.redemption_peers))

-- `recipientRefFor`.
unfoldable pub recipient_ref_for : Bytes → Bytes → Result RefError Ref
recipient_ref_for pipe_id name =
    if not (is_empty name)
    then new_ref kind_pipe name
    else new_ref kind_pipe (take 63 (lit "connect-" ++ pipe_id))
