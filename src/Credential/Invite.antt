-- ===== src/Credential/Invite.antt =====
-- internal/accesslease/invite.go: minting, verifying and coding an exact invite.
pub mod Mint
pub mod Verify
use tubo.Base.{
  ℕ, ◌+◌, true, not, ◌&&◌, ◌||◌, Option, List, [], ◌∷◌, Bytes, lit, same, is_empty, has_prefix,
  length, ltb, ◌==◌, Result, ok, ◌>>=◌, ◌>>◌, fail_if, or_fail, map_err,
}
use tubo.Credential.{
  Library, ExactInvite, InviteSigning, OwnerBinding, CredentialError, credential_version,
  invite_type, max_bytes, max_pipe_id_len, max_field_len, max_ttl, exact_invite_signing_domain,
  field_exceeds_bound, invalid_encoding, invalid_lifetime_argument, wrong_kind_or_version,
  invalid_metadata, audience_too_long, invalid_lifetime, audience_mismatch, invalid_signature,
  marshal_failed, missing_binding, not_one_time, invalid_binding, owner_mismatch, issuer_not_bound,
  binding_pipe_mismatch,
}
use tubo.Credential.Encoding.{
  valid_string, domain_bytes, public_string, public_from_string, decode_signature, random_id,
  verify_pipe_owner,
}
use tubo.Credential.Strict.{decode_strict_json}
use tubo.Credential.Lease.{effective_now, verify_window}
use tubo.Credential.Binding.{
  verify_owner_binding, verify_owner_authority, encode_owner_binding, decode_owner_binding,
}

-- `inviteAllowed`.
unfoldable pub invite_allowed : List (Bytes × ℕ)
invite_allowed =
    (lit "audience_pipe_id", max_pipe_id_len)
    ∷ (lit "binding", max_bytes)
    ∷ (lit "version", max_field_len)
    ∷ (lit "type", max_field_len)
    ∷ (lit "issuer", max_field_len)
    ∷ (lit "jti", max_field_len)
    ∷ (lit "issued_at", max_field_len)
    ∷ (lit "not_before", max_field_len)
    ∷ (lit "expires_at", max_field_len)
    ∷ (lit "access_epoch", max_field_len)
    ∷ (lit "one_time", max_field_len)
    ∷ (lit "signature", max_field_len)
    ∷ []

unfoldable pub invite_signing : ExactInvite → InviteSigning
invite_signing i = record {
  version = i.version;
  type = i.type;
  issuer = i.issuer;
  audience_pipe_id = i.audience_pipe_id;
  binding = i.binding;
  jti = i.jti;
  issued_at = i.issued_at;
  not_before = i.not_before;
  expires_at = i.expires_at;
  access_epoch = i.access_epoch;
  one_time = i.one_time;
}

module _ (g : Library) where
  open g use {
    ed_public, ed_sign, ed_verify, base64_encode, marshal_invite_signing, marshal_invite,
    unmarshal_invite,
  }

  -- `ExactInvite.signingBody`.
  unfoldable pub invite_signing_body : ExactInvite → Result CredentialError Bytes
  invite_signing_body i = do
    canonical ← or_fail (marshal_invite_signing (invite_signing i)) marshal_failed
    ok (domain_bytes exact_invite_signing_domain canonical)

  -- `ExactInvite.Sign`.
  unfoldable pub sign_invite : Bytes → ExactInvite → Result CredentialError ExactInvite
  sign_invite private i = do
    let issued = record i { issuer = public_string g (ed_public private) }
    canonical ← invite_signing_body issued
    ok (record issued { signature = public_string g (ed_sign private canonical) })

  -- `NewExactInvite`.
  unfoldable pub new_exact_invite :
      Bytes → OwnerBinding → Bytes → ℕ → ℕ → ℕ → Option Bytes → Result CredentialError ExactInvite
  new_exact_invite private binding pipe_id now lifetime access_epoch random = do
    bound ← verify_owner_authority g binding (public_string g (ed_public private))
    fail_if
        (not (valid_string pipe_id)
          || ltb max_pipe_id_len (length pipe_id)
          || not (same bound.pipe_id pipe_id))
        binding_pipe_mismatch
    encoded ← encode_owner_binding g binding
    fail_if (lifetime == 0 || ltb max_ttl lifetime) invalid_lifetime_argument
    jti ← random_id g (lit "jti_") random
    sign_invite private (record {
      version = credential_version;
      type = invite_type;
      issuer = [];
      audience_pipe_id = pipe_id;
      binding = encoded;
      jti = jti;
      issued_at = now;
      not_before = now;
      expires_at = now + lifetime;
      access_epoch = access_epoch;
      one_time = true;
      signature = [];
    })

  -- The part of `ExactInvite.Verify` that reads the invite's own fields.
  unfoldable pub verify_invite_fields : ExactInvite → Bytes → ℕ → Result CredentialError (Unit {0})
  verify_invite_fields i pipe_id now = do
    fail_if (not (i.version == credential_version) || not (same i.type invite_type))
        wrong_kind_or_version
    fail_if
        (not (valid_string i.issuer)
          || not (valid_string i.audience_pipe_id)
          || not (valid_string i.jti)
          || not (has_prefix (lit "jti_") i.jti))
        invalid_metadata
    fail_if (ltb max_pipe_id_len (length i.audience_pipe_id)) audience_too_long
    fail_if (is_empty i.binding || ltb max_bytes (length i.binding)) missing_binding
    fail_if (not i.one_time) not_one_time
    fail_if (i.issued_at == 0 || i.not_before == 0 || not (ltb i.issued_at i.expires_at))
        invalid_lifetime
    verify_window i.issued_at i.not_before i.expires_at now
    fail_if (not (is_empty pipe_id) && not (same i.audience_pipe_id pipe_id)) audience_mismatch

  -- The part that composes the owner's binding, and the signature.
  unfoldable pub verify_invite_binding : ExactInvite → Result CredentialError (Unit {0})
  verify_invite_binding i = do
    binding ← map_err (λ _. invalid_binding) (decode_owner_binding g i.binding)
    owner_pub ← map_err (λ _. invalid_binding) (verify_owner_binding g binding)
    fail_if (not (verify_pipe_owner g i.audience_pipe_id owner_pub)) owner_mismatch
    fail_if (not (same binding.authority_key i.issuer)) issuer_not_bound
    fail_if (not (same binding.pipe_id i.audience_pipe_id)) binding_pipe_mismatch
    signature ← decode_signature g i.signature
    canonical ← invite_signing_body i
    issuer ← public_from_string g i.issuer
    fail_if (not (ed_verify issuer canonical signature)) invalid_signature

  -- `ExactInvite.Verify`; `wall` is `time.Now()`.
  unfoldable pub verify_invite : ExactInvite → ℕ → ℕ → Bytes → Result CredentialError (Unit {0})
  verify_invite i now wall pipe_id = do
    verify_invite_fields i pipe_id (effective_now wall now)
    verify_invite_binding i

  -- `EncodeInvite`.
  unfoldable pub encode_invite : ExactInvite → Result CredentialError Bytes
  encode_invite i = do
    bytes ← or_fail (marshal_invite i) marshal_failed
    let encoded = base64_encode bytes
    fail_if (ltb max_bytes (length encoded)) field_exceeds_bound
    ok encoded

  -- `DecodeInvite`.
  unfoldable pub decode_invite : Bytes → Result CredentialError ExactInvite
  decode_invite encoded = do
    bytes ← decode_strict_json g encoded invite_allowed
    or_fail (unmarshal_invite bytes) invalid_encoding
