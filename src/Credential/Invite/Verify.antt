-- ===== src/Credential/Invite/Verify.antt =====
-- What a verified invite of internal/accesslease/invite.go is.
use tubo.Base.{
  ℕ, ◌≤◌, ◌<◌, ◌≡◌, ◌⊎◌, inl, inr, true, [], arith, Bytes, lit, same_iff, has_prefix, length, ok,
  Result-cases,
}
use tubo.Credential.{
  Library, ExactInvite, OwnerBinding, credential_version, invite_type, max_pipe_id_len,
}
use tubo.Credential.Encoding.{public_from_string, decode_signature, verify_pipe_owner}
use tubo.Credential.Lease.{effective_now, verify_window}
use tubo.Credential.Lease.Verify.{InWindow, verify_window_iff}
use tubo.Credential.Binding.{verify_owner_binding, decode_owner_binding}
use tubo.Credential.Binding.Verify.{
  IsBound, verify_owner_binding-IsSignedBinding, verify_pipe_owner-derives,
}
use tubo.Credential.Invite.{
  invite_signing_body, verify_invite_fields, verify_invite_binding, verify_invite,
}

-- The invite is for the pipe and for one use, valid at the time, issued under a key that the pipe's owner has
-- bound, and signed under it.
pub record IsValidInvite (g : Library) (i : ExactInvite) (pipe_id : Bytes) (now : ℕ) : Type 0 where
  pub of_kind : (i.version ≡ credential_version) × (i.type ≡ invite_type)
  pub one_time : i.one_time ≡ true
  pub audience_size :
      (0 < length i.audience_pipe_id) × (length i.audience_pipe_id ≤ max_pipe_id_len)
  pub jti_form : has_prefix (lit "jti_") i.jti ≡ true
  pub times_set : (0 < i.issued_at) × (0 < i.not_before)
  pub in_window : InWindow i.issued_at i.not_before i.expires_at now
  pub for_pipe : (pipe_id ≡ []) ⊎ (i.audience_pipe_id ≡ pipe_id)
  pub bound :
      (b : OwnerBinding) × (owner : Bytes) × IsBound g i.binding i.audience_pipe_id i.issuer b owner
  pub signed :
      (key : Bytes) × (signature : Bytes) × (body : Bytes) × (public_from_string g i.issuer
        ≡ ok key)
      × (decode_signature g i.signature ≡ ok signature)
      × (invite_signing_body g i ≡ ok body)
      × (g.ed_verify key body signature ≡ true)

module _ (g : Library) where
  -- What the fields of a verified invite are.
  abbrev FieldsValid : ExactInvite → Bytes → ℕ → Type 0
  FieldsValid i pipe_id now =
      ((i.version ≡ credential_version) × (i.type ≡ invite_type))
      × (i.one_time ≡ true)
      × ((0 < length i.audience_pipe_id) × (length i.audience_pipe_id ≤ max_pipe_id_len))
      × (has_prefix (lit "jti_") i.jti ≡ true)
      × ((0 < i.issued_at) × (0 < i.not_before))
      × (verify_window i.issued_at i.not_before i.expires_at now ≡ ok tt)
      × ((pipe_id ≡ []) ⊎ (i.audience_pipe_id ≡ pipe_id))

  verify_invite_fields-FieldsValid :
      (i : ExactInvite) (pipe_id : Bytes) (now : ℕ)
      → verify_invite_fields g i pipe_id now ≡ ok tt
      → FieldsValid i pipe_id now
  unfolding verify_invite_fields
  verify_invite_fields-FieldsValid i pipe_id now h =
      ground (arith, same_iff i.type invite_type, same_iff i.audience_pipe_id pipe_id)

  abbrev BoundSigned : ExactInvite → Type 0
  BoundSigned i =
      ((b : OwnerBinding) × (owner : Bytes) × (decode_owner_binding g i.binding ≡ ok b)
        × (verify_owner_binding g b ≡ ok owner)
        × (verify_pipe_owner g i.audience_pipe_id owner ≡ true)
        × (b.authority_key ≡ i.issuer)
        × (b.pipe_id ≡ i.audience_pipe_id))
      × ((key : Bytes) × (signature : Bytes) × (body : Bytes) × (public_from_string g i.issuer
            ≡ ok key)
          × (decode_signature g i.signature ≡ ok signature)
          × (invite_signing_body g i ≡ ok body)
          × (g.ed_verify key body signature ≡ true))

  verify_invite_binding-BoundSigned :
      (i : ExactInvite) → verify_invite_binding g i ≡ ok tt → BoundSigned i
  unfolding verify_invite_binding
  verify_invite_binding-BoundSigned i h = elim (Result-cases (decode_owner_binding g i.binding)) [
    | inr (e, lost) ↦ absurd (ground arith)
    | inl (b, read) ↦ elim (Result-cases (verify_owner_binding g b)) [
      | inr (e, lost) ↦ absurd (ground arith)
      | inl (owner, verified) ↦ (
        (
          b,
          owner,
          read,
          verified,
          ground arith,
          ground (arith, same_iff b.authority_key i.issuer),
          ground (arith, same_iff b.pipe_id i.audience_pipe_id),
        ),
        ground arith,
      )
    ]
  ]

  verify_invite-parts :
      (i : ExactInvite) (now wall : ℕ) (pipe_id : Bytes)
      → verify_invite g i now wall pipe_id ≡ ok tt
      → (verify_invite_fields g i pipe_id (effective_now wall now) ≡ ok tt)
        × (verify_invite_binding g i ≡ ok tt)
  unfolding verify_invite
  verify_invite-parts i now wall pipe_id h = ground arith

  -- An invite that is verified is valid.
  pub verify_invite-IsValidInvite :
      (i : ExactInvite) (now wall : ℕ) (pipe_id : Bytes)
      → verify_invite g i now wall pipe_id ≡ ok tt
      → IsValidInvite g i pipe_id (effective_now wall now)
  verify_invite-IsValidInvite i now wall pipe_id h =
      let (fields, rest) = verify_invite-parts i now wall pipe_id h in
      let (kind, once, audience, jti, times, window, for_pipe) =
        verify_invite_fields-FieldsValid i pipe_id (effective_now wall now) fields in
      let ((b, owner, read, verified, derives, issuer, pipe), signed) =
        verify_invite_binding-BoundSigned i rest in
      record {
        of_kind = kind;
        one_time = once;
        audience_size = audience;
        jti_form = jti;
        times_set = times;
        in_window =
            (verify_window_iff i.issued_at i.not_before i.expires_at (effective_now wall now)).0
              window;
        for_pipe = for_pipe;
        bound = (
          b,
          owner,
          (
            read,
            verify_owner_binding-IsSignedBinding g b owner verified,
            verify_pipe_owner-derives g i.audience_pipe_id owner derives,
            issuer,
            pipe,
          ),
        );
        signed = signed;
      }
