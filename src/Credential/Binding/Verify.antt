-- ===== src/Credential/Binding/Verify.antt =====
-- What a verified owner binding of internal/accesslease/owner.go is.
use tubo.Base.{◌≤◌, ◌<◌, ◌≡◌, true, arith, Bytes, same_iff, length, ok}
use tubo.Credential.{Library, OwnerBinding, credential_version, owner_binding_type, max_pipe_id_len}
use tubo.Credential.Encoding.{
  public_from_string, decode_signature, pipe_id_from_owner, verify_pipe_owner,
}
use tubo.Credential.Binding.{binding_signing_body, verify_owner_binding, decode_owner_binding}

-- The binding is signed under the printed key of the owner.
pub record IsSignedBinding (g : Library) (b : OwnerBinding) (owner : Bytes) : Type 0 where
  pub of_kind : (b.version ≡ credential_version) × (b.type ≡ owner_binding_type)
  pub for_pipe : (0 < length b.pipe_id) × (length b.pipe_id ≤ max_pipe_id_len)
  pub owned_by : public_from_string g b.owner ≡ ok owner
  pub names_authority : (k : Bytes) × (public_from_string g b.authority_key ≡ ok k)
  pub signed :
      (signature : Bytes) × (body : Bytes) × (decode_signature g b.signature ≡ ok signature)
      × (binding_signing_body g b ≡ ok body)
      × (g.ed_verify owner body signature ≡ true)

module _ (g : Library) where
  pub verify_owner_binding-IsSignedBinding :
      (b : OwnerBinding) (owner : Bytes)
      → verify_owner_binding g b ≡ ok owner
      → IsSignedBinding g b owner
  unfolding verify_owner_binding
  verify_owner_binding-IsSignedBinding b owner h = record {
    of_kind = ground (arith, same_iff b.type owner_binding_type);
    for_pipe = ground arith;
    owned_by = ground arith;
    names_authority = ground arith;
    signed = ground arith;
  }

  -- The owner whose key derives the pipe's identifier has bound the issuer to the pipe.
  abbrev pub IsBound : Bytes → Bytes → Bytes → OwnerBinding → Bytes → Type 0
  IsBound text pipe_id issuer b owner =
      (decode_owner_binding g text ≡ ok b)
      × IsSignedBinding g b owner
      × (pipe_id ≡ pipe_id_from_owner g owner)
      × (b.authority_key ≡ issuer)
      × (b.pipe_id ≡ pipe_id)

  pub verify_pipe_owner-derives :
      (pipe_id owner : Bytes)
      → verify_pipe_owner g pipe_id owner ≡ true
      → pipe_id ≡ pipe_id_from_owner g owner
  unfolding verify_pipe_owner
  verify_pipe_owner-derives pipe_id owner h =
      ground (arith, same_iff pipe_id (pipe_id_from_owner g owner))
