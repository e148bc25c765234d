-- ===== src/Exact/Authorize/Rules.antt =====
-- When internal/runtime/exact_authorizer.go lets a pipe be opened.
use tubo.Base.{
  ℕ, ◌≤◌, ◌≡◌, sym, ap, ◌∙◌, ◌≢◌, ◌↔◌, inl, inr, true, none, [], ◌∷◌, arith, Bytes, lit, same_iff,
  ok,
}
use tubo.Credential.Encoding.{public_string, verify_proof, decode_canonical, public_from_string}
use tubo.Credential.Lease.{verify_lease, decode_lease, effective_now}
use tubo.Credential.Lease.Verify.{verify_lease_iff, IsValidLease}
use tubo.Credential.{open_proof_purpose, AccessLease, Library}
use tubo.Store.Exact.{pipe_access, find_revocation, Db, revocation_epoch, is_revoked}
use tubo.Store.Exact.Tables.{epoch_of}
use tubo.Exact.Authorize.{
  Authorization, ExactOpenAuthorizer, OpenRequest, authorize_open, check_lease_state,
}

check_lease_state_iff :
    (g : Library) (scope pipe_id : Bytes) (lease : AccessLease) (db : Db)
    → (check_lease_state g scope pipe_id lease db ≡ ok tt) ↔ (
        (db.available ≡ true)
        × (find_revocation scope (lit "access-lease") lease.jti db ≡ none)
        × (epoch_of scope pipe_access pipe_id db ≤ lease.access_epoch))
unfolding check_lease_state is_revoked revocation_epoch
check_lease_state_iff g scope pipe_id lease db = (λ h. ground arith, λ h. ground arith)

-- What opens a pipe: a valid lease of the trusted authority, for this pipe and for the client that
-- proves possession of its key, and that no revocation has fenced.
pub record IsAuthorized (g : Library) (a : ExactOpenAuthorizer) (req : OpenRequest) (now : ℕ)
    (db : Db) (lease : AccessLease) : Type 0 where
  pub coded : decode_lease g req.access_lease ≡ ok lease
  pub valid : IsValidLease g lease a.lease_public req.client_public req.pipe_id now
  pub of_client : lease.subject ≡ req.client_public
  pub possessed :
      (client : Bytes) × (public_from_string g req.client_public ≡ ok client)
      × (verify_proof g client req.challenge_proof open_proof_purpose
            (req.challenge ∷ req.pipe_id ∷ [])
          ≡ true)
  pub answers : db.available ≡ true
  pub not_revoked : find_revocation a.scope (lit "access-lease") lease.jti db ≡ none
  pub current : epoch_of a.scope pipe_access req.pipe_id db ≤ lease.access_epoch

abbrev pub granted : OpenRequest → AccessLease → Authorization
granted req lease = record {
  pipe_id = req.pipe_id;
  subject = req.client_public;
  issuer = lease.issuer;
  lease_id = lease.jti;
  expires_at = lease.expires_at;
  access_epoch = lease.access_epoch;
}

public_from_string-nonempty : (g : Library) (s k : Bytes) → public_from_string g s ≡ ok k → s ≢ []
unfolding public_from_string decode_canonical
public_from_string-nonempty g s k h e = ground arith

authorize_open-steps :
    (g : Library) (a : ExactOpenAuthorizer) (req : OpenRequest) (wall : ℕ) (db : Db)
    (z : Authorization)
    → authorize_open g a req wall db ≡ ok z
    → (lease : AccessLease) × (decode_lease g req.access_lease ≡ ok lease)
      × (verify_lease g lease a.lease_public req.client_public req.pipe_id req.now wall ≡ ok tt)
      × ((client : Bytes) × (public_from_string g req.client_public ≡ ok client)
          × (verify_proof g client req.challenge_proof open_proof_purpose
                (req.challenge ∷ req.pipe_id ∷ [])
              ≡ true))
      × (check_lease_state g a.scope req.pipe_id lease db ≡ ok tt)
      × (z ≡ granted req lease)
unfolding authorize_open
authorize_open-steps g a req wall db z h = ground arith

authorize_open-of_steps :
    (g : Library) (a : ExactOpenAuthorizer) (req : OpenRequest) (wall : ℕ) (db : Db)
    (lease : AccessLease) (client : Bytes)
    → decode_lease g req.access_lease ≡ ok lease
    → verify_lease g lease a.lease_public req.client_public req.pipe_id req.now wall ≡ ok tt
    → lease.issuer ≡ public_string g a.lease_public
    → public_from_string g req.client_public ≡ ok client
    → verify_proof g client req.challenge_proof open_proof_purpose
        (req.challenge ∷ req.pipe_id ∷ [])
      ≡ true
    → check_lease_state g a.scope req.pipe_id lease db ≡ ok tt
    → authorize_open g a req wall db ≡ ok (granted req lease)
unfolding authorize_open
authorize_open-of_steps g a req wall db lease client h₁ h₂ h₃ h₄ h₅ h₆ =
    ground (arith, same_iff lease.issuer (public_string g a.lease_public))

-- An open is authorized exactly for such a lease, and the answer repeats the request and the lease.
pub authorize_open_iff :
    (g : Library) (a : ExactOpenAuthorizer) (req : OpenRequest) (wall : ℕ) (db : Db)
    (z : Authorization)
    → (authorize_open g a req wall db ≡ ok z) ↔ (
        (lease : AccessLease) × IsAuthorized g a req (effective_now wall req.now) db lease
        × (z ≡ granted req lease))
unfolding authorize_open
authorize_open_iff g a req wall db z = (
  λ h.
      let (lease, coded, verified, possessed, state, shape) =
        authorize_open-steps g a req wall db z h in
      let valid =
        (verify_lease_iff g lease a.lease_public req.client_public req.pipe_id req.now wall).0
          verified in
      let (up, kept, current) = (check_lease_state_iff g a.scope req.pipe_id lease db).0 state in
      let of_client : lease.subject ≡ req.client_public = elim valid.for_subject [
        | inl e ↦ absurd (public_from_string-nonempty g req.client_public possessed.0 possessed.1 e)
        | inr e ↦ e
      ] in
      (
        lease,
        record {
          coded = coded;
          valid = valid;
          of_client = of_client;
          possessed = possessed;
          answers = up;
          not_revoked = kept;
          current = current;
        },
        shape,
      ),
  λ h.
      let (lease, v, shape) = h in
      authorize_open-of_steps g a req wall db lease v.possessed.0 v.coded
        ((verify_lease_iff g lease a.lease_public req.client_public req.pipe_id req.now wall).1
          v.valid)
        v.valid.issued_by v.possessed.1 v.possessed.2
        ((check_lease_state_iff g a.scope req.pipe_id lease db).1
          (v.answers, v.not_revoked, v.current))
      ∙ ap ok (sym shape),
)
