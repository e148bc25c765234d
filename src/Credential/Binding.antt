-- ===== src/Credential/Binding.antt =====
-- internal/accesslease/owner.go: the owner's binding of one authority key to one pipe.
pub mod Verify
use tubo.Base.{
  ℕ, suc, not, ◌&&◌, ◌||◌, List, [], ◌∷◌, Bytes, lit, same, is_empty, length, ltb, ◌==◌,
  if◌then◌else◌, Result, ok, ◌>>=◌, ◌>>◌, fail_if, or_fail,
}
use tubo.Credential.{
  Library, OwnerBinding, OwnerBindingSigning, OwnerAuthority, CredentialError, credential_version,
  owner_binding_type, max_bytes, max_pipe_id_len, max_field_len, max_redemption_addr_len,
  max_redemption_protocol_len, max_redemption_addresses, owner_binding_signing_domain,
  field_exceeds_bound, invalid_encoding, wrong_kind_or_version, invalid_metadata, marshal_failed,
  invalid_signature, foreign_pipe, invalid_pipe_id, invalid_key, peers_out_of_bounds,
  protocol_out_of_bounds, owner_mismatch, authority_mismatch,
}
use tubo.Credential.Encoding.{
  valid_string, domain_bytes, public_string, public_from_string, decode_signature,
  verify_pipe_owner,
}
use tubo.Credential.Strict.{decode_strict_json}

-- `ownerBindingAllowed`.
unfoldable pub owner_binding_allowed : List (Bytes × ℕ)
owner_binding_allowed =
    (lit "pipe_id", max_pipe_id_len)
    ∷ (lit "redemption_peers", max_redemption_addr_len)
    ∷ (lit "redemption_protocol", max_redemption_protocol_len)
    ∷ (lit "version", max_field_len)
    ∷ (lit "type", max_field_len)
    ∷ (lit "owner", max_field_len)
    ∷ (lit "authority_key", max_field_len)
    ∷ (lit "epoch", max_field_len)
    ∷ (lit "signature", max_field_len)
    ∷ []

-- `len(strings.Split(s, ","))`.
unfoldable pub address_count : Bytes → ℕ
address_count [] = 1
address_count (c ∷ s) = let rest = address_count s in if c == b',' then suc rest else rest

unfoldable pub binding_signing : OwnerBinding → OwnerBindingSigning
binding_signing b = record {
  version = b.version;
  type = b.type;
  owner = b.owner;
  authority_key = b.authority_key;
  pipe_id = b.pipe_id;
  redemption_peers = b.redemption_peers;
  redemption_protocol = b.redemption_protocol;
  epoch = b.epoch;
}

module _ (g : Library) where
  open g use {
    ed_public, ed_sign, ed_verify, base64_encode, marshal_binding_signing, marshal_binding,
    unmarshal_binding,
  }

  -- `OwnerBinding.signingBody`.
  unfoldable pub binding_signing_body : OwnerBinding → Result CredentialError Bytes
  binding_signing_body b = do
    canonical ← or_fail (marshal_binding_signing (binding_signing b)) marshal_failed
    ok (domain_bytes owner_binding_signing_domain canonical)

  -- `OwnerBinding.Sign`.
  unfoldable pub sign_binding : Bytes → OwnerBinding → Result CredentialError OwnerBinding
  sign_binding private b = do
    let owned = record b { owner = public_string g (ed_public private) }
    canonical ← binding_signing_body owned
    ok (record owned { signature = public_string g (ed_sign private canonical) })

  -- `NewOwnerBinding`.
  unfoldable pub new_owner_binding :
      Bytes → Bytes → Bytes → ℕ → Bytes → Bytes → Result CredentialError OwnerBinding
  new_owner_binding owner_private authority_key pipe_id epoch peers protocol = do
    let owner = ed_public owner_private
    fail_if (not (length owner == 32)) invalid_key
    fail_if (not (verify_pipe_owner g pipe_id owner)) foreign_pipe
    fail_if (not (valid_string pipe_id) || ltb max_pipe_id_len (length pipe_id)) invalid_pipe_id
    fail_if (not (length authority_key == 32)) invalid_key
    fail_if
        (ltb max_redemption_addresses (address_count peers)
          || ltb max_redemption_addr_len (length peers))
        peers_out_of_bounds
    fail_if (not (is_empty protocol) && ltb max_redemption_protocol_len (length protocol))
        protocol_out_of_bounds
    sign_binding owner_private (record {
      version = credential_version;
      type = owner_binding_type;
      owner = public_string g owner;
      authority_key = public_string g authority_key;
      pipe_id = pipe_id;
      redemption_peers = peers;
      redemption_protocol = protocol;
      epoch = epoch;
      signature = [];
    })

  -- `OwnerBinding.VerifyOwnerBinding`: the owner's public key.
  unfoldable pub verify_owner_binding : OwnerBinding → Result CredentialError Bytes
  verify_owner_binding b = do
    fail_if (not (b.version == credential_version) || not (same b.type owner_binding_type))
        wrong_kind_or_version
    fail_if
        (not (valid_string b.owner)
          || not (valid_string b.authority_key)
          || not (valid_string b.pipe_id)
          || ltb max_pipe_id_len (length b.pipe_id))
        invalid_metadata
    fail_if (ltb max_redemption_addr_len (length b.redemption_peers)) peers_out_of_bounds
    fail_if
        (not (is_empty b.redemption_peers)
          && ltb max_redemption_addresses (address_count b.redemption_peers))
        peers_out_of_bounds
    fail_if
        (not (is_empty b.redemption_protocol)
          && ltb max_redemption_protocol_len (length b.redemption_protocol))
        protocol_out_of_bounds
    owner_pub ← public_from_string g b.owner
    authority_pub ← public_from_string g b.authority_key
    fail_if (not (length authority_pub == 32)) invalid_key
    signature ← decode_signature g b.signature
    canonical ← binding_signing_body b
    fail_if (not (ed_verify owner_pub canonical signature)) invalid_signature
    ok owner_pub

  -- `OwnerBinding.VerifyOwnerAuthority`.
  unfoldable pub verify_owner_authority :
      OwnerBinding → Bytes → Result CredentialError OwnerAuthority
  verify_owner_authority b authority_key = do
    owner_pub ← verify_owner_binding b
    fail_if (not (verify_pipe_owner g b.pipe_id owner_pub)) owner_mismatch
    fail_if (not (is_empty authority_key) && not (same b.authority_key authority_key))
        authority_mismatch
    ok (record {
      owner = b.owner;
      authority_key = b.authority_key;
      pipe_id = b.pipe_id;
      epoch = b.epoch;
    })

  -- `EncodeOwnerBinding`.
  unfoldable pub encode_owner_binding : OwnerBinding → Result CredentialError Bytes
  encode_owner_binding b = do
    bytes ← or_fail (marshal_binding b) marshal_failed
    let encoded = base64_encode bytes
    fail_if (ltb max_bytes (length encoded)) field_exceeds_bound
    ok encoded

  -- `DecodeOwnerBinding`.
  unfoldable pub decode_owner_binding : Bytes → Result CredentialError OwnerBinding
  decode_owner_binding encoded = do
    bytes ← decode_strict_json g encoded owner_binding_allowed
    or_fail (unmarshal_binding bytes) invalid_encoding
