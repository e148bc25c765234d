-- ===== src/Scoped/Signed.antt =====
-- Tokens of internal/authority/token.go from the signature to the verification.
use tubo.Base.{
  ℕ, ◌+◌, ◌≤◌, ◌<◌, ◌≡◌, refl, inl, inr, false, none, some, [], ◌∷◌, arith, Bytes, lit, same,
  same_refl, is_empty, length, length-append, ltb, ltb_iff, ==_iff, Option-cases, ok, Result-cases,
}
use tubo.Scoped.{ScopedLibrary, Token, skew}
use tubo.Scoped.Tokens.{
  check_endpoint, check_token, signing_bytes, new_token, verify_token, sign_token,
}
use tubo.Domain.Model.{validate_scope, Scope}
use tubo.Credential.Encoding.{random_id}
use tubo.Credential.{IsLibrary}

-- The checks look at neither the issuer nor the signature.
check_token-signed :
    (t : Token) (issuer signature : Bytes) (now : ℕ)
    → check_token (record t { issuer = issuer; signature = signature }) now ≡ check_token t now
unfolding check_token
check_token-signed t issuer signature now = refl

is_empty-length : (x : Bytes) → 0 < length x → is_empty x ≡ false
is_empty-length [] h = ground arith
is_empty-length (c ∷ x) h = refl

fits_8192 : (x : Bytes) → length x ≤ 8192 → ltb 8192 (length x) ≡ false
fits_8192 x h = ground (arith, ltb_iff 8192 (length x))

module _ (g : ScopedLibrary) (law : IsLibrary g.base) where
  -- What signing changes, and that the signature verifies.
  pub verify_token-sign_token :
      (t s : Token) (private : Bytes) (now : ℕ)
      → sign_token g t private ≡ ok s
      → (verify_token g s (g.base.ed_public private) now ≡ check_token t now)
        × ((s.access_epoch ≡ t.access_epoch)
            × (s.subject ≡ t.subject)
            × (s.audience ≡ t.audience)
            × (s.type ≡ t.type)
            × (s.expires_at ≡ t.expires_at))
  unfolding sign_token verify_token signing_bytes
  verify_token-sign_token t s private now e =
      let issued = record t {
        issuer = g.base.base64_encode (g.base.ed_public private);
        signature = [];
      } in
      elim (Option-cases (g.marshal_token issued)) [
        | inl lost ↦ ground arith
        | inr (m, marshalled) ↦
            let signed = record issued {
              signature = g.base.base64_encode (g.base.ed_sign private m);
            } in
            let shape : s ≡ signed = ground arith in
            (
              rw shape (elim (Result-cases (check_token t now)) [
                | inl (_, passed) ↦ ground (
                  arith,
                  check_token-signed t issued.issuer signed.signature now,
                  law.decode_encode (g.base.ed_sign private m),
                  law.length_sign private m,
                  law.verify_sign private m,
                  same_refl (g.base.base64_encode (g.base.ed_public private)),
                )
                | inr (failure, refused) ↦
                    ground (arith, check_token-signed t issued.issuer signed.signature now)
              ]),
              ground arith,
            )
      ]

  -- The id of a token: a prefix of 4 bytes, and 26 characters for 16 random bytes.
  random_id-length :
      (value jti : Bytes)
      → length value ≡ 16
      → random_id g.base (lit "jti_") (some value) ≡ ok jti
      → length jti ≡ 30
  unfolding random_id
  random_id-length value jti size e =
      ground
        (arith, law.length_base32 value, length-append (lit "jti_") (g.base.base32_encode value))

  module _ (kind subject audience : Bytes) (scope : Scope) (lifetime minted now epoch : ℕ)
      (value : Bytes) where
    -- A new token passes every check of its fields from its minting, less the clock skew, to its end.
    pub new_token-check :
        (t : Token)
        → same kind (lit "share.invite") ≡ false
        → length value ≡ 16
        → validate_scope scope ≡ ok tt
        → (0 < length subject) × (length subject ≤ 8192)
        → (0 < length audience) × (length audience ≤ 8192)
        → (0 < minted) × (minted ≤ now + skew) × (now < minted + lifetime) × (0 < lifetime)
        → new_token g kind scope subject audience lifetime (some value) minted ≡ ok t
        → check_token (record t { access_epoch = epoch }) now ≡ ok tt
    unfolding new_token check_token check_endpoint
    new_token-check t other size valid subject_fits audience_fits lives e =
        elim (Result-cases (random_id g.base (lit "jti_") (some value))) [
          | inl (jti, drawn) ↦
              let long : length jti ≡ 30 = random_id-length value jti size drawn in
              let (after, early, late, some_time) = lives in
              let shape : t ≡ record {
                version = 2;
                type = kind;
                issuer = [];
                subject = subject;
                audience = audience;
                scope = scope;
                role = [];
                jti = jti;
                issued_at = minted;
                expires_at = minted + lifetime;
                authority_address = [];
                namespace_key = [];
                one_time = false;
                pipe_endpoint = none;
                display_name_hint = [];
                access_epoch = 0;
                publish_epoch = 0;
                signature = [];
              } =
                ground arith in
              rw shape (
                ground (
                  arith,
                  is_empty-length subject subject_fits.0,
                  fits_8192 subject subject_fits.1,
                  is_empty-length audience audience_fits.0,
                  fits_8192 audience audience_fits.1,
                  is_empty-length jti (omega arith),
                  fits_8192 jti (omega arith),
                  ltb_iff minted (minted + lifetime),
                  ltb_iff now (minted + lifetime),
                  ltb_iff (now + skew) minted,
                  ==_iff minted 0,
                ))
          | inr (failure, undrawn) ↦ ground arith
        ]
