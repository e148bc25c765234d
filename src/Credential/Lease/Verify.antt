-- ===== src/Credential/Lease/Verify.antt =====
-- What the verification of an access lease in internal/accesslease/accesslease.go promises.
use tubo.Base.{
  ℕ, ◌+◌, ◌≤◌, ◌<◌, ◌≡◌, ◌↔◌, ◌⊎◌, true, [], ◌∷◌, arith, Bytes, lit, same_iff, has_prefix, length,
  ok,
}
use tubo.Credential.Lease.{
  verify_bound_to, verify_lease_fields, verify_lease_signature, verify_lease, verify_window,
  lease_signing_body, effective_now,
}
use tubo.Credential.{
  Library, AccessLease, credential_version, access_lease_type, max_pipe_id_len, max_field_len,
  max_clock_skew, max_ttl,
}
use tubo.Credential.Encoding.{public_string, public_from_string, decode_signature}

-- What `AccessLease.Verify` promises of a lease at a time, for a key, a subject and a pipe.
pub record IsValidLease (g : Library) (l : AccessLease) (public subject pipe_id : Bytes) (now : ℕ)
    : Type 0 where
  pub of_kind : (l.version ≡ credential_version) × (l.type ≡ access_lease_type)
  pub issued_by : l.issuer ≡ public_string g public
  pub issuer_size : (0 < length l.issuer) × (length l.issuer ≤ max_field_len)
  pub subject_key : (k : Bytes) × (public_from_string g l.subject ≡ ok k)
  pub subject_size : (0 < length l.subject) × (length l.subject ≤ max_field_len)
  pub audience_size :
      (0 < length l.audience_pipe_id) × (length l.audience_pipe_id ≤ max_pipe_id_len)
  pub jti_form : (has_prefix (lit "jti_") l.jti ≡ true) × (length l.jti ≤ max_field_len)
  pub times_set : (0 < l.issued_at) × (0 < l.not_before)
  pub within_skew : (l.issued_at ≤ now + max_clock_skew) × (l.not_before ≤ now + max_clock_skew)
  pub live : (l.issued_at < l.expires_at) × (now < l.expires_at)
  pub short_lived : l.expires_at ≤ l.issued_at + max_ttl
  pub for_subject : (subject ≡ []) ⊎ (l.subject ≡ subject)
  pub for_pipe : (pipe_id ≡ []) ⊎ (l.audience_pipe_id ≡ pipe_id)
  pub signed :
      (signature : Bytes) × (body : Bytes) × (decode_signature g l.signature ≡ ok signature)
      × (lease_signing_body g l ≡ ok body)
      × (g.ed_verify public body signature ≡ true)

has_prefix-pos : (c : ℕ) (p s : Bytes) → has_prefix (c ∷ p) s ≡ true → 0 < length s
unfolding has_prefix
has_prefix-pos c p [] h = cc
has_prefix-pos c p (x ∷ s) h = omega arith

-- The times, with a skew that moves the start but never the end.
abbrev pub InWindow : ℕ → ℕ → ℕ → ℕ → Type 0
InWindow issued_at not_before expires_at now =
    (issued_at ≤ now + max_clock_skew)
    × (not_before ≤ now + max_clock_skew)
    × (now < expires_at)
    × (expires_at ≤ issued_at + max_ttl)

pub verify_window_iff :
    (issued_at not_before expires_at now : ℕ)
    → (verify_window issued_at not_before expires_at now ≡ ok tt)
      ↔ InWindow issued_at not_before expires_at now
unfolding verify_window
verify_window_iff issued_at not_before expires_at now = (λ h. ground arith, λ h. ground arith)

verify_bound_to_iff :
    (l : AccessLease) (subject pipe_id : Bytes)
    → (verify_bound_to l subject pipe_id ≡ ok tt) ↔ (
        ((subject ≡ []) ⊎ (l.subject ≡ subject))
        × ((pipe_id ≡ []) ⊎ (l.audience_pipe_id ≡ pipe_id)))
unfolding verify_bound_to
verify_bound_to_iff l subject pipe_id = (
  λ h. ground (arith, same_iff l.subject subject, same_iff l.audience_pipe_id pipe_id),
  λ h. ground (arith, same_iff l.subject subject, same_iff l.audience_pipe_id pipe_id),
)

module _ (g : Library) (l : AccessLease) (public : Bytes) where
  abbrev FieldsValid : Type 0
  FieldsValid =
      (l.version ≡ credential_version)
      × (l.type ≡ access_lease_type)
      × (l.issuer ≡ public_string g public)
      × ((0 < length l.issuer) × (length l.issuer ≤ max_field_len))
      × ((k : Bytes) × (public_from_string g l.subject ≡ ok k))
      × ((0 < length l.subject) × (length l.subject ≤ max_field_len))
      × ((0 < length l.audience_pipe_id) × (length l.audience_pipe_id ≤ max_pipe_id_len))
      × ((has_prefix (lit "jti_") l.jti ≡ true) × (length l.jti ≤ max_field_len))
      × ((0 < l.issued_at) × (0 < l.not_before))
      × (l.issued_at < l.expires_at)

  verify_lease_fields_iff : (verify_lease_fields g l public ≡ ok tt) ↔ FieldsValid
  unfolding verify_lease_fields
  verify_lease_fields_iff = (
    λ h.
        ground
          (arith, same_iff l.type access_lease_type, same_iff l.issuer (public_string g public)),
    λ h. ground (
      arith,
      same_iff l.type access_lease_type,
      same_iff l.issuer (public_string g public),
      has_prefix-pos b'j' (lit "ti_") l.jti,
    ),
  )

  abbrev IsSigned : Type 0
  IsSigned =
      (signature : Bytes) × (body : Bytes) × (decode_signature g l.signature ≡ ok signature)
      × (lease_signing_body g l ≡ ok body)
      × (g.ed_verify public body signature ≡ true)

  verify_lease_signature_iff : (verify_lease_signature g l public ≡ ok tt) ↔ IsSigned
  unfolding verify_lease_signature
  verify_lease_signature_iff = (λ h. ground arith, λ h. ground arith)

-- `Verify` accepts a lease exactly when it is one of the current kind and version that the given key
-- issued and signed, within its sizes, for a canonical subject key, inside its window at the given
-- time (or at the clock's, where none is given), and for the subject and pipe that are pinned.
pub verify_lease_iff :
    (g : Library) (l : AccessLease) (public subject pipe_id : Bytes) (now wall : ℕ)
    → (verify_lease g l public subject pipe_id now wall ≡ ok tt)
      ↔ IsValidLease g l public subject pipe_id (effective_now wall now)
unfolding verify_lease
verify_lease_iff g l public subject pipe_id now wall = (
  λ h. ground (arith, fields, window, bound, signed),
  λ v. ground (arith, fields, window, bound, signed),
)
  where
    fields : (verify_lease_fields g l public ≡ ok tt) ↔ FieldsValid g l public
    fields = verify_lease_fields_iff g l public

    window :
        (verify_window l.issued_at l.not_before l.expires_at (effective_now wall now) ≡ ok tt)
        ↔ InWindow l.issued_at l.not_before l.expires_at (effective_now wall now)
    window = verify_window_iff l.issued_at l.not_before l.expires_at (effective_now wall now)

    bound : (verify_bound_to l subject pipe_id ≡ ok tt) ↔ (
        ((subject ≡ []) ⊎ (l.subject ≡ subject))
        × ((pipe_id ≡ []) ⊎ (l.audience_pipe_id ≡ pipe_id)))
    bound = verify_bound_to_iff l subject pipe_id

    signed : (verify_lease_signature g l public ≡ ok tt) ↔ IsSigned g l public
    signed = verify_lease_signature_iff g l public
