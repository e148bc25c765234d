-- ===== src/Credential/Lease.antt =====
-- internal/accesslease/accesslease.go: minting, signing, verifying and coding an access lease.
pub mod Verify
pub mod Mint
use tubo.Base.{
  ℕ, ◌+◌, ◌-◌, not, ◌&&◌, ◌||◌, Option, List, [], ◌∷◌, Bytes, lit, same, is_empty, has_prefix,
  length, ltb, ◌==◌, if◌then◌else◌, Result, ok, ◌>>=◌, ◌>>◌, fail_if, or_fail, map_err,
}
use tubo.Credential.{
  Library, AccessLease, LeaseSigning, CredentialError, credential_version, access_lease_type,
  max_bytes, max_pipe_id_len, max_field_len, max_clock_skew, max_ttl, access_lease_signing_domain,
  field_exceeds_bound, invalid_encoding, invalid_subject_or_pipe, invalid_subject,
  invalid_lifetime_argument, wrong_kind_or_version, invalid_metadata, audience_too_long,
  invalid_lifetime, issued_in_future, not_yet_valid, expired, ttl_exceeded, subject_mismatch,
  audience_mismatch, invalid_signature, marshal_failed,
}
use tubo.Credential.Encoding.{
  valid_string, domain_bytes, public_string, public_from_string, decode_signature, random_id,
}
use tubo.Credential.Strict.{decode_strict_json}

unfoldable pub lease_signing : AccessLease → LeaseSigning
lease_signing l = record {
  version = l.version;
  type = l.type;
  issuer = l.issuer;
  subject = l.subject;
  audience_pipe_id = l.audience_pipe_id;
  jti = l.jti;
  issued_at = l.issued_at;
  not_before = l.not_before;
  expires_at = l.expires_at;
  access_epoch = l.access_epoch;
}

-- `leaseAllowed`.
unfoldable pub lease_allowed : List (Bytes × ℕ)
lease_allowed =
    (lit "audience_pipe_id", max_pipe_id_len)
    ∷ (lit "version", max_field_len)
    ∷ (lit "type", max_field_len)
    ∷ (lit "issuer", max_field_len)
    ∷ (lit "subject", max_field_len)
    ∷ (lit "jti", max_field_len)
    ∷ (lit "issued_at", max_field_len)
    ∷ (lit "not_before", max_field_len)
    ∷ (lit "expires_at", max_field_len)
    ∷ (lit "access_epoch", max_field_len)
    ∷ (lit "signature", max_field_len)
    ∷ []

-- `now.IsZero()` makes `Verify` read the clock.
abbrev pub effective_now : ℕ → ℕ → ℕ
effective_now wall now = if now == 0 then wall else now

-- The part of `AccessLease.Verify` that reads the times, at a `now` that is set.
unfoldable pub verify_window : ℕ → ℕ → ℕ → ℕ → Result CredentialError (Unit {0})
verify_window issued_at not_before expires_at now = do
  fail_if (ltb (now + max_clock_skew) issued_at) issued_in_future
  fail_if (ltb (now + max_clock_skew) not_before) not_yet_valid
  fail_if (not (ltb now expires_at)) expired
  fail_if (ltb max_ttl (expires_at - issued_at)) ttl_exceeded

-- The subject and the pipe that the caller pins; an empty one is not checked.
unfoldable pub verify_bound_to : AccessLease → Bytes → Bytes → Result CredentialError (Unit {0})
verify_bound_to l subject pipe_id = do
  fail_if (not (is_empty subject) && not (same l.subject subject)) subject_mismatch
  fail_if (not (is_empty pipe_id) && not (same l.audience_pipe_id pipe_id)) audience_mismatch

module _ (g : Library) where
  open g use {
    ed_public, ed_sign, ed_verify, base64_encode, marshal_lease_signing, marshal_lease,
    unmarshal_lease,
  }

  -- `AccessLease.signingBody`.
  unfoldable pub lease_signing_body : AccessLease → Result CredentialError Bytes
  lease_signing_body l = do
    canonical ← or_fail (marshal_lease_signing (lease_signing l)) marshal_failed
    ok (domain_bytes access_lease_signing_domain canonical)

  -- `AccessLease.Sign`.
  unfoldable pub sign_lease : Bytes → AccessLease → Result CredentialError AccessLease
  sign_lease private l = do
    let issued = record l { issuer = public_string g (ed_public private) }
    canonical ← lease_signing_body issued
    ok (record issued { signature = public_string g (ed_sign private canonical) })

  -- `NewAccessLease`; `random` is what `rand.Read` yields, and a lifetime of 0 stands for any that is
  -- not positive.
  unfoldable pub new_access_lease :
      Bytes → Bytes → Bytes → ℕ → ℕ → ℕ → Option Bytes → Result CredentialError AccessLease
  new_access_lease private subject pipe_id now lifetime access_epoch random = do
    fail_if
        (not (valid_string subject)
          || not (valid_string pipe_id)
          || ltb max_pipe_id_len (length pipe_id))
        invalid_subject_or_pipe
    _ ← map_err (λ _. invalid_subject) (public_from_string g subject)
    fail_if (lifetime == 0 || ltb max_ttl lifetime) invalid_lifetime_argument
    jti ← random_id g (lit "jti_") random
    sign_lease private (record {
      version = credential_version;
      type = access_lease_type;
      issuer = [];
      subject = subject;
      audience_pipe_id = pipe_id;
      jti = jti;
      issued_at = now;
      not_before = now;
      expires_at = now + lifetime;
      access_epoch = access_epoch;
      signature = [];
    })

  -- `AccessLease.Verify` in three parts: the fields, who and what the lease is for, the signature.
  unfoldable pub verify_lease_fields : AccessLease → Bytes → Result CredentialError (Unit {0})
  verify_lease_fields l public = do
    fail_if (not (l.version == credential_version) || not (same l.type access_lease_type))
        wrong_kind_or_version
    fail_if
        (not (same l.issuer (public_string g public))
          || not (valid_string l.issuer)
          || not (valid_string l.subject)
          || not (valid_string l.audience_pipe_id)
          || not (valid_string l.jti)
          || not (has_prefix (lit "jti_") l.jti))
        invalid_metadata
    _ ← map_err (λ _. invalid_subject) (public_from_string g l.subject)
    fail_if (ltb max_pipe_id_len (length l.audience_pipe_id)) audience_too_long
    fail_if (l.issued_at == 0 || l.not_before == 0 || not (ltb l.issued_at l.expires_at))
        invalid_lifetime

  unfoldable pub verify_lease_signature : AccessLease → Bytes → Result CredentialError (Unit {0})
  verify_lease_signature l public = do
    signature ← decode_signature g l.signature
    canonical ← lease_signing_body l
    fail_if (not (ed_verify public canonical signature)) invalid_signature

  -- `AccessLease.Verify`; `wall` is `time.Now()`.
  unfoldable pub verify_lease :
      AccessLease → Bytes → Bytes → Bytes → ℕ → ℕ → Result CredentialError (Unit {0})
  verify_lease l public subject pipe_id now wall = do
    verify_lease_fields l public
    verify_window l.issued_at l.not_before l.expires_at (effective_now wall now)
    verify_bound_to l subject pipe_id
    verify_lease_signature l public

  -- `Encode`.
  unfoldable pub encode_lease : AccessLease → Result CredentialError Bytes
  encode_lease l = do
    bytes ← or_fail (marshal_lease l) marshal_failed
    let encoded = base64_encode bytes
    fail_if (ltb max_bytes (length encoded)) field_exceeds_bound
    ok encoded

  -- `Decode`.
  unfoldable pub decode_lease : Bytes → Result CredentialError AccessLease
  decode_lease encoded = do
    bytes ← decode_strict_json g encoded lease_allowed
    or_fail (unmarshal_lease bytes) invalid_encoding
