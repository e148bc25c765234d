-- ===== src/Credential.antt =====
-- internal/accesslease: the three credentials, the constants of sign.go, and what the package takes
-- from Go's library.
pub mod Encoding
pub mod Strict
pub mod Lease
pub mod Binding
pub mod Invite
use tubo.Base.{
  ℕ, ◌+◌, ◌-◌, ◌*◌, ◌/◌, ◌≡◌, Bool, true, false, ◌||◌, Option, some, List, [], ◌∷◌, ◌++◌, Bytes,
  lit, length, any, ◌==◌,
}

-- Times are nanoseconds since the zero `time.Time`, in UTC; 0 is the zero time.
-- internal/accesslease/accesslease.go
pub record AccessLease : Type 0 where
  pub version : ℕ
  pub type : Bytes
  pub issuer : Bytes
  pub subject : Bytes
  pub audience_pipe_id : Bytes
  pub jti : Bytes
  pub issued_at : ℕ
  pub not_before : ℕ
  pub expires_at : ℕ
  pub access_epoch : ℕ
  pub signature : Bytes

-- `accessLeaseSigning`: the members that are signed.
pub record LeaseSigning : Type 0 where
  pub version : ℕ
  pub type : Bytes
  pub issuer : Bytes
  pub subject : Bytes
  pub audience_pipe_id : Bytes
  pub jti : Bytes
  pub issued_at : ℕ
  pub not_before : ℕ
  pub expires_at : ℕ
  pub access_epoch : ℕ

-- internal/accesslease/owner.go
pub record OwnerBinding : Type 0 where
  pub version : ℕ
  pub type : Bytes
  pub owner : Bytes
  pub authority_key : Bytes
  pub pipe_id : Bytes
  pub redemption_peers : Bytes
  pub redemption_protocol : Bytes
  pub epoch : ℕ
  pub signature : Bytes

pub record OwnerBindingSigning : Type 0 where
  pub version : ℕ
  pub type : Bytes
  pub owner : Bytes
  pub authority_key : Bytes
  pub pipe_id : Bytes
  pub redemption_peers : Bytes
  pub redemption_protocol : Bytes
  pub epoch : ℕ

pub record OwnerAuthority : Type 0 where
  pub owner : Bytes
  pub authority_key : Bytes
  pub pipe_id : Bytes
  pub epoch : ℕ

-- internal/accesslease/invite.go
pub record ExactInvite : Type 0 where
  pub version : ℕ
  pub type : Bytes
  pub issuer : Bytes
  pub audience_pipe_id : Bytes
  pub binding : Bytes
  pub jti : Bytes
  pub issued_at : ℕ
  pub not_before : ℕ
  pub expires_at : ℕ
  pub access_epoch : ℕ
  pub one_time : Bool
  pub signature : Bytes

pub record InviteSigning : Type 0 where
  pub version : ℕ
  pub type : Bytes
  pub issuer : Bytes
  pub audience_pipe_id : Bytes
  pub binding : Bytes
  pub jti : Bytes
  pub issued_at : ℕ
  pub not_before : ℕ
  pub expires_at : ℕ
  pub access_epoch : ℕ
  pub one_time : Bool

-- internal/accesslease/sign.go
abbrev pub credential_version : ℕ
credential_version = 1

abbrev pub access_lease_type : Bytes
access_lease_type = lit "pipe.open.access"

abbrev pub invite_type : Bytes
invite_type = lit "pipe.open.invite"

abbrev pub owner_binding_type : Bytes
owner_binding_type = lit "exact.owner.binding"

abbrev pub max_bytes : ℕ
max_bytes = 49152

abbrev pub max_field_len : ℕ
max_field_len = 4096

abbrev pub max_redemption_addr_len : ℕ
max_redemption_addr_len = 1024

abbrev pub max_redemption_protocol_len : ℕ
max_redemption_protocol_len = 128

abbrev pub max_pipe_id_len : ℕ
max_pipe_id_len = 256

abbrev pub max_redemption_addresses : ℕ
max_redemption_addresses = 8

-- 30 seconds and 10 minutes.
abbrev pub max_clock_skew : ℕ
max_clock_skew = 30_000_000_000

abbrev pub max_ttl : ℕ
max_ttl = 600_000_000_000

abbrev pub access_lease_signing_domain : Bytes
access_lease_signing_domain = lit "tubo://access-lease/v1" ++ (0 ∷ [])

abbrev pub owner_binding_signing_domain : Bytes
owner_binding_signing_domain = lit "tubo://exact-owner-binding/v1" ++ (0 ∷ [])

abbrev pub exact_invite_signing_domain : Bytes
exact_invite_signing_domain = lit "tubo://exact-invite/v1" ++ (0 ∷ [])

abbrev pub open_proof_purpose : Bytes
open_proof_purpose = lit "tubo-open-v2"

abbrev pub redeem_proof_purpose : Bytes
redeem_proof_purpose = lit "tubo-exact-redeem-v2"

abbrev pub renew_proof_purpose : Bytes
renew_proof_purpose = lit "tubo-exact-renew-v2"

pub data CredentialError : Type 0 where
  empty_base64 whitespace_in_base64 padded_base64 invalid_base64 non_canonical_base64 :
      CredentialError
  invalid_public_key invalid_signature_encoding invalid_encoding : CredentialError
  field_exceeds_bound duplicate_key unknown_field nested_value trailing_payload : CredentialError
  invalid_subject_or_pipe invalid_subject invalid_lifetime_argument : CredentialError
  wrong_kind_or_version invalid_metadata audience_too_long invalid_lifetime : CredentialError
  issued_in_future not_yet_valid expired ttl_exceeded : CredentialError
  subject_mismatch audience_mismatch invalid_signature : CredentialError
  marshal_failed random_failed : CredentialError
  foreign_pipe invalid_pipe_id invalid_key peers_out_of_bounds protocol_out_of_bounds :
      CredentialError
  owner_mismatch authority_mismatch : CredentialError
  missing_binding not_one_time invalid_binding binding_pipe_mismatch issuer_not_bound :
      CredentialError

-- What `json.Decoder.Token` yields. The end of a list is the end of the input, and `malformed`
-- stands where the decoder reports a syntax error.
pub data Token : Type 0 where
  open_brace close_brace open_bracket close_bracket malformed : Token
  text : Bytes → Token
  scalar : Token

-- The parts of Go's library that the credentials rest on: `crypto/ed25519`, `crypto/sha256`,
-- `encoding/base32`, `encoding/base64` and `encoding/json`.
pub record Library : Type 0 where
  pub ed_public : Bytes → Bytes
  pub ed_sign : Bytes → Bytes → Bytes
  pub ed_verify : Bytes → Bytes → Bytes → Bool
  pub sha256 : Bytes → Bytes
  pub base32_encode : Bytes → Bytes
  pub base64_encode : Bytes → Bytes
  pub base64_decode : Bytes → Option Bytes
  pub tokens : Bytes → List Token
  pub marshal_lease_signing : LeaseSigning → Option Bytes
  pub marshal_lease : AccessLease → Option Bytes
  pub unmarshal_lease : Bytes → Option AccessLease
  pub marshal_binding_signing : OwnerBindingSigning → Option Bytes
  pub marshal_binding : OwnerBinding → Option Bytes
  pub unmarshal_binding : Bytes → Option OwnerBinding
  pub marshal_invite_signing : InviteSigning → Option Bytes
  pub marshal_invite : ExactInvite → Option Bytes
  pub unmarshal_invite : Bytes → Option ExactInvite

-- What Go documents of `ed25519` and of `base64.RawURLEncoding`.
pub record IsLibrary (g : Library) : Type 0 where
  pub verify_sign : (k m : Bytes) → g.ed_verify (g.ed_public k) m (g.ed_sign k m) ≡ true
  pub length_public : (k : Bytes) → length (g.ed_public k) ≡ 32
  pub length_sign : (k m : Bytes) → length (g.ed_sign k m) ≡ 64
  pub decode_encode : (x : Bytes) → g.base64_decode (g.base64_encode x) ≡ some x
  -- Letters, digits, `-` and `_` alone, so no white space and no `=`.
  pub encode_alphabet :
      (x : Bytes) → any (λ c. c == 13 || c == 10 || c == 9 || c == 32) (g.base64_encode x) ≡ false
  pub encode_unpadded : (x : Bytes) → any (λ c. c == b'=') (g.base64_encode x) ≡ false
  -- Eight characters for five bytes, and what is left rounded up, with no padding.
  pub length_base32 : (x : Bytes) → length (g.base32_encode x) ≡ (length x * 8 + 4) / 5
  -- Four characters for three bytes, and two or three for what is left.
  pub length_encode : (x : Bytes) → length (g.base64_encode x) ≡ (length x * 4 + 2) / 3
