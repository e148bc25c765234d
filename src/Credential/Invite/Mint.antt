-- ===== src/Credential/Invite/Mint.antt =====
-- Minted invites of internal/accesslease/invite.go.
use tubo.Base.{
  ℕ, ◌+◌, ◌≤◌, ◌<◌, ◌≡◌, refl, sym, ◌∙◌, subst, ap, true, false, inl, inr, Option, some, [], ◌++◌,
  arith, Bytes, lit, same_iff, same_refl, is_empty, has_prefix-append, length, ok, bind-ok,
  Result-cases, has_prefix,
}
use tubo.Credential.Encoding.{
  decode_canonical, decode_signature-sign, public_string, public_from_string-public_string,
  random_id, valid_string, verify_pipe_owner,
}
use tubo.Credential.Strict.{decode_strict_json}
use tubo.Credential.Lease.{verify_window}
use tubo.Credential.Binding.{
  verify_owner_binding, verify_owner_authority, encode_owner_binding, decode_owner_binding,
}
use tubo.Credential.Invite.{
  invite_signing, invite_signing_body, verify_invite, verify_invite_fields, verify_invite_binding,
  new_exact_invite, sign_invite,
}
use tubo.Credential.{
  Library, IsLibrary, ExactInvite, OwnerBinding, OwnerAuthority, credential_version, invite_type,
  max_pipe_id_len, max_bytes, max_clock_skew, max_ttl,
}

module _ (g : Library) where
  -- The invite with its issuer and its signature.
  abbrev signed_invite : Bytes → ExactInvite → Bytes → ExactInvite
  signed_invite private i body = record i {
    issuer = public_string g (g.ed_public private);
    signature = public_string g (g.ed_sign private body);
  }

  sign_invite-ok :
      (private : Bytes) (i m : ExactInvite)
      → sign_invite g private i ≡ ok m
      → (body : Bytes) × (invite_signing_body g (signed_invite private i body) ≡ ok body)
        × (signed_invite private i body ≡ m)
  unfolding sign_invite invite_signing_body invite_signing
  sign_invite-ok private i m h =
      let issued : ExactInvite = record i { issuer = public_string g (g.ed_public private) } in
      let (body, covers, done) =
        bind-ok (invite_signing_body g issued) (λ body. ok (signed_invite private i body)) h in
      (body, covers, cc)

  abbrev unsigned_invite : Bytes → Bytes → ℕ → ℕ → ℕ → Bytes → ExactInvite
  unsigned_invite pipe_id encoded now lifetime access_epoch jti = record {
    version = credential_version;
    type = invite_type;
    issuer = [];
    audience_pipe_id = pipe_id;
    binding = encoded;
    jti = jti;
    issued_at = now;
    not_before = now;
    expires_at = now + lifetime;
    access_epoch = access_epoch;
    one_time = true;
    signature = [];
  }

  random_id-jti :
      (random : Bytes)
      → random_id g (lit "jti_") (some random) ≡ ok (lit "jti_" ++ g.base32_encode random)
  unfolding random_id
  random_id-jti random = refl

  verify_owner_authority-ok :
      (binding : OwnerBinding) (issuer : Bytes) (bound : OwnerAuthority)
      → is_empty issuer ≡ false
      → verify_owner_authority g binding issuer ≡ ok bound
      → ((owner : Bytes) × (verify_owner_binding g binding ≡ ok owner)
          × (verify_pipe_owner g binding.pipe_id owner ≡ true))
        × (binding.authority_key ≡ issuer)
        × (bound.pipe_id ≡ binding.pipe_id)
  unfolding verify_owner_authority
  verify_owner_authority-ok binding issuer bound named h =
      elim (Result-cases (verify_owner_binding g binding)) [
        | inr (e, refused) ↦ absurd (ground arith)
        | inl (owner, verified) ↦ (
          (owner, verified, ground arith),
          ground (arith, same_iff binding.authority_key issuer),
          ground arith,
        )
      ]

  -- What a mint that succeeds was given, and what it signed.
  abbrev Minted : Bytes → OwnerBinding → Bytes → ℕ → ℕ → ℕ → Bytes → ExactInvite → Type 0
  Minted private binding pipe_id now lifetime access_epoch random i =
      ((owner : Bytes) × (verify_owner_binding g binding ≡ ok owner)
        × (verify_pipe_owner g binding.pipe_id owner ≡ true))
      × (binding.authority_key ≡ public_string g (g.ed_public private))
      × (binding.pipe_id ≡ pipe_id)
      × ((0 < length pipe_id) × (length pipe_id ≤ max_pipe_id_len))
      × ((0 < lifetime) × (lifetime ≤ max_ttl))
      × ((encoded : Bytes) × (encode_owner_binding g binding ≡ ok encoded)
          × (sign_invite g private (
                unsigned_invite pipe_id encoded now lifetime access_epoch
                  (lit "jti_" ++ g.base32_encode random))
              ≡ ok i))

  new_exact_invite-ok :
      (private : Bytes) (binding : OwnerBinding) (pipe_id : Bytes) (now lifetime access_epoch : ℕ)
      (random : Bytes) (i : ExactInvite)
      → is_empty (public_string g (g.ed_public private)) ≡ false
      → new_exact_invite g private binding pipe_id now lifetime access_epoch (some random) ≡ ok i
      → Minted private binding pipe_id now lifetime access_epoch random i
  unfolding new_exact_invite
  new_exact_invite-ok private binding pipe_id now lifetime access_epoch random i named h =
      elim (Result-cases
        (verify_owner_authority g binding (public_string g (g.ed_public private)))) [
          | inr (e, refused) ↦ absurd (ground arith)
          | inl (bound, trusted) ↦
              let (owned, keyed, of_pipe) =
                verify_owner_authority-ok binding (public_string g (g.ed_public private)) bound
                  named trusted in
              elim (Result-cases (encode_owner_binding g binding)) [
                | inr (e, refused) ↦ absurd (ground arith)
                | inl (encoded, coded) ↦ (
                  owned,
                  keyed,
                  ground (arith, same_iff bound.pipe_id pipe_id),
                  ground arith,
                  ground arith,
                  (encoded, coded, ground (arith, random_id-jti random)),
                )
              ]
        ]

  -- A text that decodes to a binding is a field of an invite.
  decode_owner_binding-size :
      (text : Bytes) (binding : OwnerBinding)
      → decode_owner_binding g text ≡ ok binding
      → (is_empty text ≡ false) × (length text ≤ max_bytes)
  unfolding decode_owner_binding decode_strict_json decode_canonical
  decode_owner_binding-size text binding h = ground arith

  verify_invite_fields-of_minted :
      (pipe_id encoded jti : Bytes) (now lifetime access_epoch later : ℕ) (issuer signature : Bytes)
      → valid_string issuer ≡ true
      → (0 < length pipe_id) × (length pipe_id ≤ max_pipe_id_len)
      → (valid_string jti ≡ true) × (has_prefix (lit "jti_") jti ≡ true)
      → (is_empty encoded ≡ false) × (length encoded ≤ max_bytes)
      → (0 < now) × (0 < lifetime) × (lifetime ≤ max_ttl)
      → (now ≤ later + max_clock_skew) × (later < now + lifetime)
      → verify_invite_fields g
          (record (unsigned_invite pipe_id encoded now lifetime access_epoch jti) {
            issuer = issuer;
            signature = signature;
          })
          pipe_id
          later
        ≡ ok tt
  unfolding verify_invite_fields verify_window
  verify_invite_fields-of_minted pipe_id encoded jti now lifetime access_epoch later issuer
        signature named audience identified bound times live =
      ground (arith, same_refl invite_type, same_refl pipe_id)

  verify_invite_binding-of_signed :
      IsLibrary g
      → (private body : Bytes) (binding : OwnerBinding) (owner : Bytes) (i : ExactInvite)
      → decode_owner_binding g i.binding ≡ ok binding
      → verify_owner_binding g binding ≡ ok owner
      → verify_pipe_owner g i.audience_pipe_id owner ≡ true
      → binding.authority_key ≡ i.issuer
      → binding.pipe_id ≡ i.audience_pipe_id
      → i.issuer ≡ public_string g (g.ed_public private)
      → i.signature ≡ public_string g (g.ed_sign private body)
      → invite_signing_body g i ≡ ok body
      → verify_invite_binding g i ≡ ok tt
  unfolding verify_invite_binding
  verify_invite_binding-of_signed law private body binding owner i reads verified derived keyed
        of_pipe issued signed covers =
      ground (
        arith,
        same_iff binding.authority_key i.issuer,
        same_iff binding.pipe_id i.audience_pipe_id,
        decode_signature-sign g law private body,
        public_from_string-public_string g law private,
        law.verify_sign private body,
      )

  public_string-size :
      IsLibrary g
      → (private : Bytes)
      → (is_empty (public_string g (g.ed_public private)) ≡ false)
        × (valid_string (public_string g (g.ed_public private)) ≡ true)
  public_string-size law private =
      let printed = law.length_encode (g.ed_public private) in
      let size : length (public_string g (g.ed_public private)) ≡ 43 =
        omega (arith, law.length_public private) in
      (ground arith, ground arith)

  jti_size :
      IsLibrary g
      → (random : Bytes) → length random ≡ 16
      → valid_string (lit "jti_" ++ g.base32_encode random) ≡ true
  jti_size law random size =
      let coded : length (g.base32_encode random) ≡ 26 = omega (arith, law.length_base32 random) in
      ground arith

  verify_invite-of_parts :
      (i : ExactInvite) (now wall : ℕ) (pipe_id : Bytes)
      → 0 < now
      → verify_invite_fields g i pipe_id now ≡ ok tt
      → verify_invite_binding g i ≡ ok tt
      → verify_invite g i now wall pipe_id ≡ ok tt
  unfolding verify_invite
  verify_invite-of_parts i now wall pipe_id given fields binding = ground arith

-- Under the laws of the library, an invite minted at a set time with 16 random bytes for a binding that is
-- read back from its text verifies for its pipe, from its issuance (and up to the clock skew before)
-- until its lifetime is over.
pub verify_invite-new_exact_invite :
    (g : Library) (law : IsLibrary g) (private : Bytes) (binding : OwnerBinding) (pipe_id : Bytes)
    (now lifetime access_epoch : ℕ) (random : Bytes) (i : ExactInvite) (later wall : ℕ)
    → length random ≡ 16
    → 0 < now
    → ((text : Bytes)
        → encode_owner_binding g binding ≡ ok text
        → decode_owner_binding g text ≡ ok binding)
    → new_exact_invite g private binding pipe_id now lifetime access_epoch (some random) ≡ ok i
    → 0 < later
    → now ≤ later + max_clock_skew
    → later < now + lifetime
    → verify_invite g i later wall pipe_id ≡ ok tt
verify_invite-new_exact_invite g law private binding pipe_id now lifetime access_epoch random i
      later wall size set reads minted given early late =
    let (named, issuer_size) = public_string-size g law private in
    let (owned, keyed, of_pipe, audience, short, signed) =
      new_exact_invite-ok g private binding pipe_id now lifetime access_epoch random i named
        minted in
    let (owner, verified, derived) = owned in
    let (encoded, coded, signing) = signed in
    let (body, covers, shape) = sign_invite-ok g private _ i signing in
    subst (λ m. verify_invite g m later wall pipe_id ≡ ok tt) shape
      (verify_invite-of_parts g _ later wall pipe_id given
        (verify_invite_fields-of_minted g pipe_id encoded (lit "jti_" ++ g.base32_encode random) now
          lifetime access_epoch later (public_string g (g.ed_public private))
          (public_string g (g.ed_sign private body)) issuer_size audience
          (jti_size g law random size, has_prefix-append (lit "jti_") (g.base32_encode random))
          (decode_owner_binding-size g encoded binding (reads encoded coded))
          (set, short.0, short.1) (early, late))
        (verify_invite_binding-of_signed g law private body binding owner _ (reads encoded coded)
          verified (ap (λ (p : Bytes). verify_pipe_owner g p owner) (sym of_pipe) ∙ derived) keyed
          of_pipe refl refl covers))

-- A minted invite has the epoch and the lifetime that it was minted with.
pub new_exact_invite-fields :
    (g : Library) (private : Bytes) (binding : OwnerBinding) (pipe_id : Bytes)
    (now lifetime access_epoch : ℕ) (random : Option Bytes) (i : ExactInvite)
    → new_exact_invite g private binding pipe_id now lifetime access_epoch random ≡ ok i
    → (i.access_epoch ≡ access_epoch) × (i.expires_at ≡ now + lifetime)
unfolding new_exact_invite sign_invite
new_exact_invite-fields g private binding pipe_id now lifetime access_epoch random i h =
    ground arith
