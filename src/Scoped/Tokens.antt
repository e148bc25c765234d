-- ===== src/Scoped/Tokens.antt =====
-- internal/authority/token.go: tokens that an authority signs.
use tubo.Base.{
  ℕ, ◌+◌, Bool, true, false, not, ◌&&◌, ◌||◌, Option, none, some, List, [], Bytes, lit, same,
  is_empty, length, any, ltb, ◌==◌, Result, ok, ◌>>=◌, ◌>>◌, fail_if, or_fail, map_err,
}
use tubo.Scoped.{
  at_end, decoded, failed, issued_in_future, skew, token_expired, invalid_lifetime, invalid_scope,
  trailing_payload, invalid_refresh_lease, invalid_token, invalid_encoding, invalid_share_invite,
  invalid_signature, invalid_metadata, invalid_signature_encoding, too_large, foreign_issuer,
  invalid_endpoint, invalid_public_key, marshal_failed, max_token_size, random_failed,
  unsupported_version, ScopedError, PipeEndpoint, ScopedLibrary, SecondValue, Token,
}
use tubo.Domain.Model.{validate_scope, Scope}
use tubo.Credential.Encoding.{random_id, pipe_id_from_owner, proof_message}

abbrev outside_field : ℕ → Bytes → Bool
outside_field bound value = is_empty value || ltb bound (length value)

-- What `Token.Verify` asks of an endpoint.
unfoldable pub check_endpoint : Option PipeEndpoint → Result ScopedError (Unit {0})
check_endpoint none = ok tt
check_endpoint (some e) = do
  fail_if
      (outside_field 8192 e.peer_id
        || outside_field 8192 e.protocol
        || length e.addresses == 0
        || ltb 64 (length e.addresses))
      invalid_endpoint
  fail_if (any (outside_field 8192) e.addresses) invalid_endpoint

abbrev pub absent : Option PipeEndpoint → Bool
absent none = true
absent (some _) = false

-- What `Token.Verify` asks of the other fields; `now` is never the zero time.
unfoldable pub check_token : Token → ℕ → Result ScopedError (Unit {0})
check_token t now = do
  fail_if (not (t.version == 2)) unsupported_version
  fail_if
      (outside_field 8192 t.subject
        || outside_field 8192 t.jti
        || ltb 8192 (length t.audience)
        || ltb 8192 (length t.display_name_hint))
      invalid_metadata
  check_endpoint t.pipe_endpoint
  fail_if
      (same t.type (lit "share.invite")
        && (not t.one_time || is_empty t.audience || absent t.pipe_endpoint))
      invalid_share_invite
  fail_if (same t.type (lit "connect.refresh") && is_empty t.audience) invalid_refresh_lease
  map_err (λ _. invalid_scope) (validate_scope t.scope)
  fail_if (t.issued_at == 0 || not (ltb t.issued_at t.expires_at)) invalid_lifetime
  fail_if (not (ltb now t.expires_at)) token_expired
  fail_if (ltb (now + skew) t.issued_at) issued_in_future

abbrev pub is_decoded : SecondValue → Bool
is_decoded decoded = true
is_decoded at_end = false
is_decoded failed = false

module _ (g : ScopedLibrary) where
  open g use {base, marshal_token, unmarshal_token, second_value}
  open base use {ed_public, ed_sign, ed_verify, sha256, base32_encode, base64_encode, base64_decode}

  -- `NewToken`, at the 16 random bytes it draws, if it draws them, and the time of the clock.
  unfoldable pub new_token :
      Bytes → Scope → Bytes → Bytes → ℕ → Option Bytes → ℕ → Result ScopedError Token
  new_token kind scope subject audience lifetime random now = do
    jti ← map_err (λ _. random_failed) (random_id base (lit "jti_") random)
    ok (record {
      version = 2;
      type = kind;
      issuer = [];
      subject = subject;
      audience = audience;
      scope = scope;
      role = [];
      jti = jti;
      issued_at = now;
      expires_at = now + lifetime;
      authority_address = [];
      namespace_key = [];
      one_time = false;
      pipe_endpoint = none;
      display_name_hint = [];
      access_epoch = 0;
      publish_epoch = 0;
      signature = [];
    })

  -- `signingBytes`.
  unfoldable pub signing_bytes : Token → Option Bytes
  signing_bytes t = marshal_token (record t { signature = [] })

  -- `Token.Sign`.
  unfoldable pub sign_token : Token → Bytes → Result ScopedError Token
  sign_token t private = do
    let issued = record t { issuer = base64_encode (ed_public private) }
    message ← or_fail (signing_bytes issued) marshal_failed
    ok (record issued { signature = base64_encode (ed_sign private message) })

  -- `Token.Verify`.
  unfoldable pub verify_token : Token → Bytes → ℕ → Result ScopedError (Unit {0})
  verify_token t public now = do
    check_token t now
    fail_if (not (same t.issuer (base64_encode public))) foreign_issuer
    signature ← or_fail (base64_decode t.signature) invalid_signature_encoding
    fail_if (not (length signature == 64)) invalid_signature_encoding
    message ← or_fail (signing_bytes t) marshal_failed
    fail_if (not (ed_verify public message signature)) invalid_signature

  -- `Encode`.
  unfoldable pub encode_token : Token → Result ScopedError Bytes
  encode_token t = do
    payload ← or_fail (marshal_token t) marshal_failed
    fail_if (ltb max_token_size (length (base64_encode payload))) too_large
    ok (base64_encode payload)

  -- `Decode`.
  unfoldable pub decode_token : Bytes → Result ScopedError Token
  decode_token encoded = do
    fail_if (ltb max_token_size (length encoded)) too_large
    payload ← or_fail (base64_decode encoded) invalid_encoding
    fail_if (ltb max_token_size (length payload)) too_large
    value ← or_fail (unmarshal_token payload) invalid_token
    fail_if (is_decoded (second_value payload)) trailing_payload
    ok value

  -- `PublicFromString`, here without a canonical form.
  unfoldable pub public_of_text : Bytes → Result ScopedError Bytes
  public_of_text value = do
    key ← or_fail (base64_decode value) invalid_public_key
    fail_if (not (length key == 32)) invalid_public_key
    ok key

  -- `PipeID`.
  abbrev pub pipe_id_of : Bytes → Bytes
  pipe_id_of public = pipe_id_from_owner base public

  -- `VerifyProof`, here without a canonical form.
  unfoldable pub check_proof : Bytes → Bytes → Bytes → List Bytes → Bool
  check_proof public signature purpose parts = elim (base64_decode signature) [
    | none ↦ false
    | some value ↦ ed_verify public (proof_message base purpose parts) value
  ]
