-- ===== src/Credential/Lease/Mint.antt =====
-- Minted access leases of internal/accesslease/accesslease.go.
use tubo.Base.{
  ℕ, ◌+◌, ◌≤◌, ◌<◌, ◌≡◌, ◌≢◌, refl, subst, inr, Option, none, some, [], ◌++◌, arith, Bytes, lit,
  has_prefix-append, length, ok, bind-ok,
}
use tubo.Credential.Encoding.{decode_signature-sign, public_string, public_from_string, random_id}
use tubo.Credential.Lease.{
  effective_now, lease_signing, lease_signing_body, verify_lease, new_access_lease, sign_lease,
}
use tubo.Credential.Lease.Verify.{IsValidLease, verify_lease_iff}
use tubo.Credential.{
  Library, IsLibrary, AccessLease, credential_version, access_lease_type, max_pipe_id_len,
  max_field_len, max_clock_skew, max_ttl,
}

-- The lease with its issuer and its signature.
abbrev signed_lease : (g : Library) → Bytes → AccessLease → Bytes → AccessLease
signed_lease g private l body = record l {
  issuer = public_string g (g.ed_public private);
  signature = public_string g (g.ed_sign private body);
}

sign_lease-ok :
    (g : Library) (private : Bytes) (l m : AccessLease)
    → sign_lease g private l ≡ ok m
    → (body : Bytes) × (lease_signing_body g (signed_lease g private l body) ≡ ok body)
      × (signed_lease g private l body ≡ m)
unfolding sign_lease lease_signing_body lease_signing
sign_lease-ok g private l m h =
    let issued : AccessLease = record l { issuer = public_string g (g.ed_public private) } in
    let (body, covers, done) =
      bind-ok (lease_signing_body g issued) (λ body. ok (signed_lease g private l body)) h in
    (body, covers, cc)

random_id-some :
    (g : Library) (prefix random : Bytes)
    → random_id g prefix (some random) ≡ ok (prefix ++ g.base32_encode random)
unfolding random_id
random_id-some g prefix random = refl

-- The lease that is signed, at its identifier.
abbrev unsigned : Bytes → Bytes → ℕ → ℕ → ℕ → Bytes → AccessLease
unsigned subject pipe_id now lifetime access_epoch jti = record {
  version = credential_version;
  type = access_lease_type;
  issuer = [];
  subject = subject;
  audience_pipe_id = pipe_id;
  jti = jti;
  issued_at = now;
  not_before = now;
  expires_at = now + lifetime;
  access_epoch = access_epoch;
  signature = [];
}

-- What a mint that succeeds was given, and what it signed.
pub new_access_lease-ok :
    (g : Library) (private subject pipe_id : Bytes) (now lifetime access_epoch : ℕ) (random : Bytes)
    (l : AccessLease)
    → new_access_lease g private subject pipe_id now lifetime access_epoch (some random) ≡ ok l
    → ((0 < length subject) × (length subject ≤ max_field_len))
      × ((0 < length pipe_id) × (length pipe_id ≤ max_pipe_id_len))
      × ((k : Bytes) × (public_from_string g subject ≡ ok k))
      × ((0 < lifetime) × (lifetime ≤ max_ttl))
      × (sign_lease g private (
            unsigned subject pipe_id now lifetime access_epoch
              (lit "jti_" ++ g.base32_encode random))
          ≡ ok l)
unfolding new_access_lease
new_access_lease-ok g private subject pipe_id now lifetime access_epoch random l h =
    ground (arith, random_id-some g (lit "jti_") random)

-- Under the laws of the library a lease minted at a set time with 16 random bytes verifies, against
-- the public half of the key that minted it and for its own subject and pipe, from its issuance (and
-- up to the clock skew before) until its lifetime is over.
pub verify_lease-new_access_lease :
    (g : Library) (law : IsLibrary g) (private subject pipe_id : Bytes)
    (now lifetime access_epoch : ℕ) (random : Bytes) (l : AccessLease) (later wall : ℕ)
    → length random ≡ 16
    → 0 < now
    → new_access_lease g private subject pipe_id now lifetime access_epoch (some random) ≡ ok l
    → 0 < later
    → now ≤ later + max_clock_skew
    → later < now + lifetime
    → verify_lease g l (g.ed_public private) subject pipe_id later wall ≡ ok tt
verify_lease-new_access_lease g law private subject pipe_id now lifetime access_epoch random l later
      wall size set minted given early late =
    let (subject_size, audience, key, short, signing) =
      new_access_lease-ok g private subject pipe_id now lifetime access_epoch random l minted in
    let (body, covers, shape) = sign_lease-ok g private _ l signing in
    (verify_lease_iff g l (g.ed_public private) subject pipe_id later wall).1 (
      subst (λ m. IsValidLease g m (g.ed_public private) subject pipe_id (effective_now wall later))
        shape
        (record {
          of_kind = (refl, refl);
          issued_by = refl;
          issuer_size =
              omega (arith, law.length_encode (g.ed_public private), law.length_public private);
          subject_key = key;
          subject_size = subject_size;
          audience_size = audience;
          jti_form = (
            has_prefix-append (lit "jti_") (g.base32_encode random),
            omega (arith, law.length_base32 random),
          );
          times_set = (set, set);
          within_skew = ground arith;
          live = ground arith;
          short_lived = omega arith;
          for_subject = inr refl;
          for_pipe = inr refl;
          signed = (
            g.ed_sign private body,
            body,
            decode_signature-sign g law private body,
            covers,
            law.verify_sign private body,
          );
        }))

-- A minted lease carries the epoch that it was minted at.
pub new_access_lease-epoch :
    (g : Library) (private subject pipe_id : Bytes) (now lifetime access_epoch : ℕ)
    (random : Option Bytes) (l : AccessLease)
    → new_access_lease g private subject pipe_id now lifetime access_epoch random ≡ ok l
    → l.access_epoch ≡ access_epoch
unfolding new_access_lease sign_lease
new_access_lease-epoch g private subject pipe_id now lifetime access_epoch random l h = ground arith

-- A minted lease ends with its lifetime.
pub new_access_lease-expires :
    (g : Library) (private subject pipe_id : Bytes) (now lifetime access_epoch : ℕ)
    (random : Option Bytes) (l : AccessLease)
    → new_access_lease g private subject pipe_id now lifetime access_epoch random ≡ ok l
    → l.expires_at ≡ now + lifetime
unfolding new_access_lease sign_lease
new_access_lease-expires g private subject pipe_id now lifetime access_epoch random l h =
    ground arith

-- A lease of the key's owner for the subject and the pipe, that holds from a time for a lifetime.
pub record IsMinted (g : Library) (private subject pipe_id : Bytes) (now lifetime access_epoch : ℕ)
    (l : AccessLease) : Type 0 where
  pub of_kind : (l.version ≡ credential_version) × (l.type ≡ access_lease_type)
  pub issued_by : l.issuer ≡ public_string g (g.ed_public private)
  pub for_subject : l.subject ≡ subject
  pub for_pipe : l.audience_pipe_id ≡ pipe_id
  pub at_epoch : l.access_epoch ≡ access_epoch
  pub times : (l.issued_at ≡ now) × (l.not_before ≡ now) × (l.expires_at ≡ now + lifetime)
  pub short_lived : (0 < lifetime) × (lifetime ≤ max_ttl)
  pub signed :
      (body : Bytes) × (lease_signing_body g l ≡ ok body)
      × (l.signature ≡ public_string g (g.ed_sign private body))

sign_lease-IsMinted :
    (g : Library) (private subject pipe_id : Bytes) (now lifetime access_epoch : ℕ) (jti : Bytes)
    (l : AccessLease)
    → (0 < lifetime) × (lifetime ≤ max_ttl)
    → sign_lease g private (unsigned subject pipe_id now lifetime access_epoch jti) ≡ ok l
    → IsMinted g private subject pipe_id now lifetime access_epoch l
sign_lease-IsMinted g private subject pipe_id now lifetime access_epoch jti l short signing =
    let (body, covers, shape) = sign_lease-ok g private _ l signing in
    subst (IsMinted g private subject pipe_id now lifetime access_epoch) shape (record {
      of_kind = (refl, refl);
      issued_by = refl;
      for_subject = refl;
      for_pipe = refl;
      at_epoch = refl;
      times = (refl, refl, refl);
      short_lived = short;
      signed = (body, covers, refl);
    })

no_random-err :
    (g : Library) (private subject pipe_id : Bytes) (now lifetime access_epoch : ℕ)
    (l : AccessLease)
    → new_access_lease g private subject pipe_id now lifetime access_epoch none ≢ ok l
unfolding new_access_lease random_id
no_random-err g private subject pipe_id now lifetime access_epoch l h = ground arith

-- A lease that is minted is what it was asked to be.
pub new_access_lease-IsMinted :
    (g : Library) (private subject pipe_id : Bytes) (now lifetime access_epoch : ℕ)
    (random : Option Bytes) (l : AccessLease)
    → new_access_lease g private subject pipe_id now lifetime access_epoch random ≡ ok l
    → IsMinted g private subject pipe_id now lifetime access_epoch l
new_access_lease-IsMinted g private subject pipe_id now lifetime access_epoch none l h =
    absurd (no_random-err g private subject pipe_id now lifetime access_epoch l h)
new_access_lease-IsMinted g private subject pipe_id now lifetime access_epoch (some random) l h =
    let (_, _, _, short, signing) =
      new_access_lease-ok g private subject pipe_id now lifetime access_epoch random l h in
    sign_lease-IsMinted g private subject pipe_id now lifetime access_epoch
      (lit "jti_" ++ g.base32_encode random) l short signing
