-- ===== src/Exact/Authorize.antt =====
-- internal/openauth/openauth.go, internal/runtime/exact_authorizer.go: a lease opens a pipe.
pub mod Rules
pub mod Fence
use tubo.Base.{
  ℕ, ◌-◌, not, Option, none, some, [], ◌∷◌, Bytes, lit, same, ltb, if◌then◌else◌, Result, ok, err,
  ◌>>=◌, ◌>>◌, fail_if, map_err,
}
use tubo.Credential.{open_proof_purpose, AccessLease, Library}
use tubo.Credential.Encoding.{verify_proof, public_from_string, public_string}
use tubo.Credential.Lease.{verify_lease, decode_lease}
use tubo.Exact.{denied, no_authorizer, ExactError, valid_pipe_id_component}
use tubo.Store.Exact.{Db, pipe_access, is_revoked, revocation_epoch}

-- `openauth.OpenRequest`.
pub record OpenRequest : Type 0 where
  pub pipe_id : Bytes
  pub client_public : Bytes
  pub challenge : Bytes
  pub challenge_proof : Bytes
  pub access_lease : Bytes
  pub now : ℕ

-- `openauth.Authorization`.
pub record Authorization : Type 0 where
  pub pipe_id : Bytes
  pub subject : Bytes
  pub issuer : Bytes
  pub lease_id : Bytes
  pub expires_at : ℕ
  pub access_epoch : ℕ

-- `ExactOpenAuthorizer`, with the scope of the store adapter that is its revocation state.
pub record ExactOpenAuthorizer : Type 0 where
  pub lease_public : Bytes
  pub pipe_id : Bytes
  pub scope : Bytes

-- `LazyExactAuthorizer`: the pipe, and the authorizer once the key could be loaded.
pub record LazyExactAuthorizer : Type 0 where
  pub pipe_id : Bytes
  pub auth : Option ExactOpenAuthorizer

module _ (g : Library) where
  -- The checks on revocation state, at the lease.
  unfoldable pub check_lease_state : Bytes → Bytes → AccessLease → Db → Result ExactError (Unit {0})
  check_lease_state scope pipe_id lease db = do
    gone ← map_err (λ _. denied) (is_revoked scope (lit "access-lease") lease.jti db)
    fail_if gone denied
    current ← map_err (λ _. denied) (revocation_epoch scope pipe_access pipe_id db)
    fail_if (ltb lease.access_epoch current) denied

  -- `ExactOpenAuthorizer.AuthorizeOpen`; every failure is the one generic denial.
  unfoldable pub authorize_open :
      ExactOpenAuthorizer → OpenRequest → ℕ → Db → Result ExactError Authorization
  authorize_open a req wall db = do
    lease ← map_err (λ _. denied) (decode_lease g req.access_lease)
    map_err (λ _. denied)
        (verify_lease g lease a.lease_public req.client_public req.pipe_id req.now wall)
    fail_if (not (same lease.issuer (public_string g a.lease_public))) denied
    client ← map_err (λ _. denied) (public_from_string g req.client_public)
    fail_if
        (not (
          verify_proof g client req.challenge_proof open_proof_purpose
            (req.challenge ∷ req.pipe_id ∷ [])))
        denied
    check_lease_state a.scope req.pipe_id lease db
    ok (record {
      pipe_id = req.pipe_id;
      subject = req.client_public;
      issuer = lease.issuer;
      lease_id = lease.jti;
      expires_at = lease.expires_at;
      access_epoch = lease.access_epoch;
    })

  -- The first half of its `AuthorizeOpen`: the authorizer is made once, when `localkey.Load` yields
  -- a key for a pipe id that can name a file.
  unfoldable pub ensure_loaded : LazyExactAuthorizer → Option Bytes → LazyExactAuthorizer
  ensure_loaded a key = elim a.auth [
    | some auth ↦ a
    | none ↦
        if valid_pipe_id_component a.pipe_id
        then elim key [
          | none ↦ a
          | some private ↦ record a {
            auth = some (record {
              lease_public = g.ed_public private;
              pipe_id = a.pipe_id;
              scope = a.pipe_id;
            });
          }
        ]
        else a
  ]

  -- `LazyExactAuthorizer.AuthorizeOpen`.
  unfoldable pub lazy_authorize_open :
      LazyExactAuthorizer
      → Option Bytes
      → OpenRequest
      → ℕ
      → Db
      → Result ExactError Authorization × LazyExactAuthorizer
  lazy_authorize_open a key req wall db =
      let b = ensure_loaded a key in
      (elim b.auth [ none ↦ err no_authorizer | some auth ↦ authorize_open auth req wall db ], b)
