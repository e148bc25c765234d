-- ===== src/Credential/Encoding.antt =====
-- internal/accesslease/sign.go: base64 forms of keys and signatures, pipe ids, possession proofs.
use tubo.Base.{
  ℕ, ◌+◌, ◌<◌, ◌≡◌, Bool, true, false, not, ◌&&◌, ◌||◌, Option, List, [], ◌∷◌, ◌++◌, map, arith,
  Bytes, lit, same, same_refl, is_empty, length, take, any, ltb, leb, ◌==◌, if◌then◌else◌, Result,
  ok, err, ◌>>=◌, ◌>>◌, fail_if, or_fail, map_err,
}
use tubo.Credential.{
  Library, IsLibrary, CredentialError, empty_base64, whitespace_in_base64, padded_base64,
  invalid_base64, non_canonical_base64, invalid_public_key, invalid_signature_encoding,
  random_failed, max_field_len,
}

abbrev pub valid_string : Bytes → Bool
valid_string value = ltb 0 (length value) && leb (length value) max_field_len

-- `domainBytes`.
unfoldable pub domain_bytes : Bytes → Bytes → Bytes
domain_bytes domain payload = domain ++ payload

-- `strings.ToLower` on the ASCII text that base32 yields.
abbrev pub lower_char : ℕ → ℕ
lower_char c = if leb b'A' c && leb c b'Z' then c + 32 else c

-- `strings.Join(parts, "\x00")`.
unfoldable pub join_nul : List Bytes → Bytes
join_nul [] = []
join_nul (p ∷ []) = p
join_nul (p ∷ q ∷ ps) = p ++ (0 ∷ join_nul (q ∷ ps))

module _ (g : Library) where
  open g use {ed_public, ed_sign, ed_verify, sha256, base32_encode, base64_encode, base64_decode}

  -- `decodeCanonicalRawBase64URL`.
  unfoldable pub decode_canonical : Bytes → Result CredentialError Bytes
  decode_canonical value = do
    fail_if (is_empty value) empty_base64
    fail_if (any (λ c. c == 13 || c == 10 || c == 9 || c == 32) value) whitespace_in_base64
    fail_if (any (λ c. c == b'=') value) padded_base64
    bytes ← or_fail (base64_decode value) invalid_base64
    fail_if (not (same (base64_encode bytes) value)) non_canonical_base64
    ok bytes

  -- `PublicString`.
  abbrev pub public_string : Bytes → Bytes
  public_string public = base64_encode public

  -- `PublicFromString`.
  unfoldable pub public_from_string : Bytes → Result CredentialError Bytes
  public_from_string value = do
    bytes ← map_err (λ _. invalid_public_key) (decode_canonical value)
    fail_if (not (length bytes == 32)) invalid_public_key
    ok bytes

  -- `decodeSignature`.
  unfoldable pub decode_signature : Bytes → Result CredentialError Bytes
  decode_signature signature = do
    bytes ← map_err (λ _. invalid_signature_encoding) (decode_canonical signature)
    fail_if (not (length bytes == 64)) invalid_signature_encoding
    ok bytes

  -- `PipeIDFromOwner`.
  unfoldable pub pipe_id_from_owner : Bytes → Bytes
  pipe_id_from_owner owner = lit "pip_" ++ map lower_char (base32_encode (take 20 (sha256 owner)))

  -- `VerifyPipeOwner`.
  unfoldable pub verify_pipe_owner : Bytes → Bytes → Bool
  verify_pipe_owner pipe_id owner =
      if is_empty pipe_id || not (length owner == 32)
      then false
      else same pipe_id (pipe_id_from_owner owner)

  -- `randomID`, at the 16 bytes that `rand.Read` yields, or `none` where it fails.
  unfoldable pub random_id : Bytes → Option Bytes → Result CredentialError Bytes
  random_id prefix random = do
    value ← or_fail random random_failed
    ok (prefix ++ base32_encode value)

  -- The message of `SignProof` and `VerifyProof`.
  unfoldable pub proof_message : Bytes → List Bytes → Bytes
  proof_message purpose parts = purpose ++ (0 ∷ join_nul parts)

  unfoldable pub sign_proof : Bytes → Bytes → List Bytes → Bytes
  sign_proof private purpose parts = base64_encode (ed_sign private (proof_message purpose parts))

  unfoldable pub verify_proof : Bytes → Bytes → Bytes → List Bytes → Bool
  verify_proof public signature purpose parts = elim (decode_signature signature) [
    | err _ ↦ false
    | ok value ↦ ed_verify public (proof_message purpose parts) value
  ]

module _ (g : Library) (law : IsLibrary g) where
  open g use {ed_public, ed_sign, base64_encode}

  length-encode-pos : (x : Bytes) → 0 < length x → is_empty (base64_encode x) ≡ false
  length-encode-pos x h =
      let size = law.length_encode x in
      let pos : 0 < length (base64_encode x) = omega arith in ground arith

  pub decode_canonical-encode :
      (x : Bytes) → 0 < length x → decode_canonical g (base64_encode x) ≡ ok x
  unfolding decode_canonical
  decode_canonical-encode x h = ground (
    arith,
    length-encode-pos x h,
    law.encode_alphabet x,
    law.encode_unpadded x,
    law.decode_encode x,
    same_refl (base64_encode x),
  )

  -- A printed public key is read back.
  pub public_from_string-public_string :
      (k : Bytes) → public_from_string g (public_string g (ed_public k)) ≡ ok (ed_public k)
  unfolding public_from_string
  public_from_string-public_string k =
      ground (arith, law.length_public k, decode_canonical-encode (ed_public k))

  pub decode_signature-sign :
      (k m : Bytes) → decode_signature g (base64_encode (ed_sign k m)) ≡ ok (ed_sign k m)
  unfolding decode_signature
  decode_signature-sign k m =
      ground (arith, law.length_sign k m, decode_canonical-encode (ed_sign k m))

  -- Under the laws of the library a proof made with a private key verifies under its public key, for
  -- the same purpose and parts.
  verify_proof-sign_proof :
      (k purpose : Bytes) (parts : List Bytes)
      → verify_proof g (ed_public k) (sign_proof g k purpose parts) purpose parts ≡ true
  unfolding verify_proof sign_proof
  verify_proof-sign_proof k purpose parts = ground (
    arith,
    decode_signature-sign k (proof_message g purpose parts),
    law.verify_sign k (proof_message g purpose parts),
  )
