-- ===== src/Scoped.antt =====
-- internal/authority/token.go, internal/discovery/record.go and internal/runtime/authority.go: the
-- tokens and records of a scope, and the authority that answers requests with them.
pub mod Tokens
pub mod Records
pub mod Server
pub mod Operations
pub mod Process
pub mod Permission
pub mod Once
pub mod Listed
pub mod Announced
pub mod Signed
pub mod Minted
pub mod Refresh
use tubo.Base.{ℕ, ◌+◌, ◌/◌, Bool, ◌&&◌, Option, List, ◌∷◌, ◌++◌, Bytes, same}
use tubo.Credential.{Library}
use tubo.Domain.Model.{Scope}
use tubo.Store.Cache.{CacheError}

-- `authority.PipeEndpoint`.
pub record PipeEndpoint : Type 0 where
  pub peer_id : Bytes
  pub addresses : List Bytes
  pub protocol : Bytes

-- `authority.Token`. Times are nanoseconds since the zero `time.Time`, in UTC; 0 is the zero time.
pub record Token : Type 0 where
  pub version : ℕ
  pub type : Bytes
  pub issuer : Bytes
  pub subject : Bytes
  pub audience : Bytes
  pub scope : Scope
  pub role : Bytes
  pub jti : Bytes
  pub issued_at : ℕ
  pub expires_at : ℕ
  pub authority_address : Bytes
  pub namespace_key : Bytes
  pub one_time : Bool
  pub pipe_endpoint : Option PipeEndpoint
  pub display_name_hint : Bytes
  pub access_epoch : ℕ
  pub publish_epoch : ℕ
  pub signature : Bytes

-- `discovery.PipeRecord`.
pub record PipeRecord : Type 0 where
  pub version : ℕ
  pub pipe_id : Bytes
  pub display_name : Bytes
  pub owner_public_key : Bytes
  pub runtime_peer_id : Bytes
  pub scope : Scope
  pub protocol : Bytes
  pub capabilities : List Bytes
  pub addresses : List Bytes
  pub visibility : Bytes
  pub access : Bytes
  pub publish_grant : Bytes
  pub issued_at : ℕ
  pub expires_at : ℕ
  pub sequence : ℕ
  pub signature : Bytes

-- What a second `decoder.Decode(&struct{}{})` answers: `io.EOF`, a value, or another error.
pub data SecondValue : Type 0 where
  at_end decoded failed : SecondValue

-- The body of a revocation request.
pub record RevocationBody : Type 0 where
  pub subject_type : Bytes
  pub subject_jti : Bytes
  pub epoch : ℕ

-- `encoding/json` at the types of this part, beside the parts of Go's library that the credentials rest
-- on. `unmarshal_token` and `unmarshal_record` are the first `Decode` of a decoder that disallows
-- unknown fields; `length_response` is the length of a marshalled snapshot response.
pub record ScopedLibrary : Type 0 where
  pub base : Library
  pub marshal_token : Token → Option Bytes
  pub unmarshal_token : Bytes → Option Token
  pub marshal_record : PipeRecord → Option Bytes
  pub unmarshal_record : Bytes → Option PipeRecord
  pub second_value : Bytes → SecondValue
  pub unmarshal_route : Bytes → Option Bytes
  pub unmarshal_revocation : Bytes → Option RevocationBody
  pub length_response : ℕ → ℕ → List Bytes → Option ℕ

pub data ScopedError : Type 0 where
  marshal_failed random_failed unsupported_version invalid_metadata : ScopedError
  invalid_endpoint invalid_share_invite invalid_refresh_lease invalid_scope : ScopedError
  invalid_lifetime token_expired issued_in_future foreign_issuer : ScopedError
  invalid_signature_encoding invalid_signature : ScopedError
  too_large invalid_encoding invalid_token trailing_payload invalid_public_key : ScopedError
  scope_mismatch invalid_bounds invalid_visibility invalid_access sequence_required : ScopedError
  invalid_address foreign_pipe_id grant_mismatch outlives_grant : ScopedError
  field_exceeds_limit token_scope_mismatch invalid_client_key invalid_proof : ScopedError
  not_membership role_denied pipe_id_required epoch_unavailable : ScopedError
  record_required record_mismatch grant_subject_mismatch stored_invalid incomplete : ScopedError
  record_missing invalid_publication needs_share_invite : ScopedError
  invalid_access_lease epoch_revoked revocation_unavailable lease_revoked : ScopedError
  route_required invite_revoked already_redeemed redeem_failed : ScopedError
  invalid_revocation revoke_failed invalid_query_token : ScopedError
  unknown_operation : ScopedError
  cache_failed : CacheError → ScopedError

abbrev pub max_token_size : ℕ
max_token_size = 49152

abbrev pub max_record_size : ℕ
max_record_size = 65536

-- 10 minutes and 48 hours.
abbrev pub access_lease_ttl : ℕ
access_lease_ttl = 600_000_000_000

abbrev pub refresh_lease_ttl : ℕ
refresh_lease_ttl = 172_800_000_000_000

-- The 30 seconds by which an issuer's clock may be ahead.
abbrev pub skew : ℕ
skew = 30_000_000_000

-- `Scope.String`.
abbrev pub scope_text : Scope → Bytes
scope_text s = s.cluster ++ (b'/' ∷ s.namespace)

abbrev pub same_scope : Scope → Scope → Bool
same_scope a b = same a.cluster b.cluster && same a.namespace b.namespace
