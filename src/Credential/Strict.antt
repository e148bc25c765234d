-- ===== src/Credential/Strict.antt =====
-- internal/accesslease/strict.go: the flat JSON objects that a credential may be coded as.
use tubo.Base.{
  ℕ, Option, none, some, List, [], ◌∷◌, Bytes, same, contains_string, length, ltb, if◌then◌else◌,
  Result, ok, err, ◌>>=◌, ◌>>◌, fail_if, or_fail, map_err,
}
use tubo.Credential.{
  Library, Token, CredentialError, open_brace, close_brace, open_bracket, close_bracket, malformed,
  text, scalar, max_bytes, invalid_encoding, field_exceeds_bound, duplicate_key, unknown_field,
  nested_value, trailing_payload,
}
use tubo.Credential.Encoding.{decode_canonical}

-- `allowed[key]`.
unfoldable pub bound_of : Bytes → List (Bytes × ℕ) → Option ℕ
bound_of key [] = none
bound_of key ((k, bound) ∷ allowed) =
    let rest = bound_of key allowed in if same k key then some bound else rest

-- The checks on a member's value.
unfoldable pub check_value : ℕ → Token → Result CredentialError (Unit {0})
check_value bound open_brace = err nested_value
check_value bound close_brace = err nested_value
check_value bound open_bracket = err nested_value
check_value bound close_bracket = err nested_value
check_value bound malformed = err invalid_encoding
check_value bound (text s) = fail_if (ltb bound (length s)) field_exceeds_bound
check_value bound scalar = ok tt

-- The checks on a member's key.
unfoldable pub check_key : List Bytes → List (Bytes × ℕ) → Bytes → Result CredentialError ℕ
check_key seen allowed key = do
  fail_if (contains_string key seen) duplicate_key
  or_fail (bound_of key allowed) unknown_field

-- The loop `for decoder.More()` of `scanFlatObject`, from behind the opening brace to the end of the
-- input. `More` is false at a closing bracket or brace and at the end.
unfoldable pub scan_members :
    List Bytes → List (Bytes × ℕ) → List Token → Result CredentialError (Unit {0})
scan_members seen allowed [] = err invalid_encoding
scan_members seen allowed (close_brace ∷ []) = ok tt
scan_members seen allowed (close_brace ∷ t ∷ ts) = err trailing_payload
scan_members seen allowed (text key ∷ []) = do _ ← check_key seen allowed key; err invalid_encoding
scan_members seen allowed (text key ∷ value ∷ ts) =
    let rest = scan_members (key ∷ seen) allowed ts in
    do bound ← check_key seen allowed key; check_value bound value; rest
scan_members seen allowed (_ ∷ ts) = err invalid_encoding

-- `scanFlatObject`.
unfoldable pub scan_flat_object : List Token → List (Bytes × ℕ) → Result CredentialError (Unit {0})
scan_flat_object (open_brace ∷ ts) allowed = scan_members [] allowed ts
scan_flat_object _ allowed = err invalid_encoding

-- `decodeStrictJSON`.
unfoldable pub decode_strict_json :
    Library → Bytes → List (Bytes × ℕ) → Result CredentialError Bytes
decode_strict_json g encoded allowed = do
  fail_if (ltb max_bytes (length encoded)) field_exceeds_bound
  bytes ← map_err (λ _. invalid_encoding) (decode_canonical g encoded)
  fail_if (ltb max_bytes (length bytes)) field_exceeds_bound
  scan_flat_object (g.tokens bytes) allowed
  ok bytes
