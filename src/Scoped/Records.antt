-- ===== src/Scoped/Records.antt =====
-- internal/discovery/record.go: the records that publish a pipe in a scope.
use tubo.Base.{
  ℕ, ◌+◌, Bool, true, false, not, ◌&&◌, ◌||◌, Option, [], Bytes, lit, same, length, any, ltb, ◌==◌,
  Result, ok, ◌>>=◌, ◌>>◌, fail_if, or_fail, map_err,
}
use tubo.Scoped.{
  invalid_lifetime, skew, invalid_address, sequence_required, invalid_access, invalid_visibility,
  invalid_bounds, invalid_signature, invalid_signature_encoding, trailing_payload, foreign_pipe_id,
  invalid_encoding, invalid_scope, outlives_grant, grant_mismatch, scope_mismatch, too_large,
  marshal_failed, max_record_size, same_scope, unsupported_version, ScopedError, Token, PipeRecord,
  ScopedLibrary, SecondValue, at_end, decoded, failed,
}
use tubo.Scoped.Tokens.{verify_token, decode_token, pipe_id_of, public_of_text}
use tubo.Domain.Model.{validate_scope, Scope}

-- What `PipeRecord.Verify` asks before it looks at keys.
unfoldable pub check_record : PipeRecord → Scope → ℕ → Result ScopedError (Unit {0})
check_record r scope now = do
  fail_if (not (r.version == 2)) unsupported_version
  fail_if (not (same_scope r.scope scope)) scope_mismatch
  map_err (λ _. invalid_scope) (validate_scope r.scope)
  fail_if (length r.addresses == 0 || ltb 16 (length r.addresses) || ltb 64 (length r.capabilities))
      invalid_bounds
  fail_if (not (same r.visibility (lit "discoverable")) && not (same r.visibility (lit "unlisted")))
      invalid_visibility
  fail_if
      (not (same r.access (lit "invite_only"))
        && not (same r.access (lit "members"))
        && not (same r.access (lit "public")))
      invalid_access
  fail_if (r.sequence == 0) sequence_required
  fail_if (any (λ a. ltb 8192 (length a)) r.addresses) invalid_address
  fail_if
      (not (ltb r.issued_at r.expires_at)
        || not (ltb now r.expires_at)
        || ltb (now + skew) r.issued_at)
      invalid_lifetime

-- What a record and its publish grant must agree on.
unfoldable pub check_grant : PipeRecord → Token → Result ScopedError (Unit {0})
check_grant r grant = do
  fail_if
      (not (same grant.type (lit "pipe.publish"))
        || not (same grant.audience r.pipe_id)
        || not (same_scope grant.scope r.scope))
      grant_mismatch
  fail_if (ltb grant.expires_at r.expires_at) outlives_grant

abbrev ends : SecondValue → Bool
ends at_end = true
ends decoded = false
ends failed = false

module _ (g : ScopedLibrary) where
  open g use {base, marshal_record, unmarshal_record, second_value}
  open base use {ed_public, ed_sign, ed_verify, base64_encode, base64_decode}

  -- `signingBytes`.
  unfoldable pub record_signing_bytes : PipeRecord → Option Bytes
  record_signing_bytes r = marshal_record (record r { signature = [] })

  -- `PipeRecord.Sign`.
  unfoldable pub sign_record : PipeRecord → Bytes → Result ScopedError PipeRecord
  sign_record r private = do
    let owned = record r { owner_public_key = base64_encode (ed_public private) }
    message ← or_fail (record_signing_bytes owned) marshal_failed
    ok (record owned { signature = base64_encode (ed_sign private message) })

  -- `PipeRecord.Marshal`.
  unfoldable pub encode_record : PipeRecord → Result ScopedError Bytes
  encode_record r = do
    payload ← or_fail (marshal_record r) marshal_failed
    fail_if (ltb max_record_size (length payload)) too_large
    ok payload

  -- `Parse`.
  unfoldable pub parse_record : Bytes → Result ScopedError PipeRecord
  parse_record payload = do
    fail_if (ltb max_record_size (length payload)) too_large
    r ← or_fail (unmarshal_record payload) invalid_encoding
    fail_if (not (ends (second_value payload))) trailing_payload
    ok r

  -- `PipeRecord.Verify`.
  unfoldable pub verify_record : PipeRecord → Bytes → Scope → ℕ → Result ScopedError (Unit {0})
  verify_record r authority_public scope now = do
    check_record r scope now
    owner ← public_of_text g r.owner_public_key
    fail_if (not (same (pipe_id_of g owner) r.pipe_id)) foreign_pipe_id
    signature ← or_fail (base64_decode r.signature) invalid_signature_encoding
    message ← or_fail (record_signing_bytes r) marshal_failed
    fail_if (not (ed_verify owner message signature)) invalid_signature
    grant ← decode_token g r.publish_grant
    verify_token g grant authority_public now
    check_grant r grant
