-- ===== src/Scoped/Server.antt =====
-- internal/runtime/authority.go: what the authority of a scope answers.
use tubo.Base.{
  ℕ, Bool, true, false, not, ◌&&◌, ◌||◌, Option, List, [], ◌∷◌, Bytes, lit, same, is_empty, length,
  ltb, if◌then◌else◌, Result, ok, ◌>>=◌, ◌>>◌, fail_if, or_fail, map_err,
}
use tubo.Scoped.{
  invalid_proof, invalid_client_key, grant_subject_mismatch, refresh_lease_ttl,
  token_scope_mismatch, access_lease_ttl, record_mismatch, same_scope, field_exceeds_limit,
  pipe_id_required, record_required, scope_text, invalid_scope, max_record_size, role_denied,
  cache_failed, epoch_unavailable, max_token_size, not_membership, ScopedError, ScopedLibrary,
  Token, PipeRecord,
}
use tubo.Scoped.Tokens.{
  check_proof, public_of_text, encode_token, sign_token, verify_token, decode_token, new_token,
}
use tubo.Scoped.Records.{encode_record, verify_record, parse_record}
use tubo.Store.Exact.{pipe_publish, pipe_access, revocation_epoch, Db}
use tubo.Domain.Model.{validate_scope, Scope}
use tubo.Store.Records.{put_authoritative_record}
use tubo.Domain.Ref.{cut_slash}
use tubo.Store.Cache.{Record, Cache}

-- `wire.AuthorityRequest`.
pub record AuthorityRequest : Type 0 where
  pub operation : Bytes
  pub token : Bytes
  pub pipe_id : Bytes
  pub client_public : Bytes
  pub nonce : Bytes
  pub proof : Bytes
  pub body : Bytes
  pub subjects : List Bytes
  pub access_lease : Bytes

-- `wire.Revocation`.
pub record WireRevocation : Type 0 where
  pub subject_type : Bytes
  pub subject_jti : Bytes
  pub epoch : ℕ

-- `wire.AuthorityResponse` where it is OK; elsewhere the answer is an error.
pub record AuthorityResponse : Type 0 where
  pub lease : Bytes
  pub refresh_lease : Bytes
  pub grant : Bytes
  pub invite : Bytes
  pub records : List Bytes
  pub revocations : List WireRevocation

-- `authorityHandler`; the public key is the private key's.
pub record AuthorityHandler : Type 0 where
  pub scope : Scope
  pub private : Bytes

-- The tables that the handler's `state` stands for.
pub record AuthorityState : Type 0 where
  pub db : Db
  pub cache : Cache

-- What the clock says where the code reads it, each reading by itself.
pub record Readings : Type 0 where
  pub verified : ℕ
  pub pruned : ℕ
  pub selected : ℕ
  pub record_checked : ℕ
  pub lease_checked : ℕ
  pub minted : ℕ
  pub access_minted : ℕ
  pub refresh_minted : ℕ
  pub stored : ℕ
  -- One for each record of a list.
  pub listed : ℕ → ℕ

-- What `rand.Read` yields for each token and session, if it yields.
pub record Draws : Type 0 where
  pub token : Option Bytes
  pub access : Option Bytes
  pub refresh : Option Bytes
  pub session : Option Bytes

abbrev pub nothing : AuthorityResponse
nothing = record {
  lease = [];
  refresh_lease = [];
  grant = [];
  invite = [];
  records = [];
  revocations = [];
}

-- `boundedStrings`.
unfoldable pub bounded_strings : ℕ → List Bytes → Bool
bounded_strings limit [] = true
bounded_strings limit (v ∷ vs) =
    let rest = bounded_strings limit vs in not (ltb limit (length v)) && rest

-- `parseScope`.
unfoldable pub parse_scope : Bytes → Result ScopedError Scope
parse_scope value = do
  (cluster, namespace) ← or_fail (cut_slash value) invalid_scope
  let scope : Scope = record { cluster = cluster; namespace = namespace }
  map_err (λ _. invalid_scope) (validate_scope scope)
  ok scope

module _ (g : ScopedLibrary) (h : AuthorityHandler) where
  open g use {base, unmarshal_route, unmarshal_revocation, length_response}
  open base use {ed_public}

  abbrev pub own_public : Bytes
  own_public = ed_public h.private

  -- What `process` does before its `switch`.
  unfoldable pub authenticate : AuthorityRequest → ℕ → Result ScopedError Token
  authenticate req now = do
    fail_if
        (not (
            bounded_strings 8192 (
              req.operation ∷ req.pipe_id ∷ req.client_public ∷ req.nonce ∷ req.proof
              ∷ req.access_lease ∷ []))
          || ltb max_token_size (length req.token)
          || ltb max_token_size (length req.access_lease)
          || ltb max_record_size (length req.body)
          || ltb 256 (length req.subjects))
        field_exceeds_limit
    invite ← decode_token g req.token
    verify_token g invite own_public now
    fail_if (not (same_scope invite.scope h.scope)) token_scope_mismatch
    client ← map_err (λ _. invalid_client_key) (public_of_text g req.client_public)
    fail_if
        (not (
          check_proof g client req.proof (lit "tubo-authority-v2")
            (req.operation ∷ req.pipe_id ∷ req.nonce ∷ invite.jti ∷ [])))
        invalid_proof
    ok invite

  abbrev pub is_membership : Token → Bool
  is_membership invite = same invite.type (lit "membership.invite")

  abbrev pub can_publish : Token → Bool
  can_publish invite = same invite.role (lit "publisher")

  abbrev pub can_connect : Token → Bool
  can_connect invite =
      same invite.role (lit "member")
      || same invite.role (lit "publisher")
      || same invite.role (lit "forwarder")

  abbrev pub can_discover : Token → Bool
  can_discover invite = same invite.role (lit "viewer") || can_connect invite

  -- `mintLeases`: the access lease and the refresh lease.
  unfoldable pub mint_leases :
      Bytes → Bytes → Draws → Readings → Db → Result ScopedError (Bytes × Bytes)
  mint_leases subject pipe_id draws at db = do
    epoch ←
        map_err (λ _. epoch_unavailable)
          (revocation_epoch (scope_text h.scope) pipe_access pipe_id db)
    access ←
        new_token g (lit "connect.access") h.scope subject pipe_id access_lease_ttl draws.access
          at.access_minted
    refresh ←
        new_token g (lit "connect.refresh") h.scope subject pipe_id refresh_lease_ttl draws.refresh
          at.refresh_minted
    signed_access ← sign_token g (record access { access_epoch = epoch }) h.private
    signed_refresh ← sign_token g (record refresh { access_epoch = epoch }) h.private
    a ← encode_token g signed_access
    r ← encode_token g signed_refresh
    ok (a, r)

  abbrev pub answer_leases : Bytes × Bytes → AuthorityResponse
  answer_leases (lease, refresh) = record nothing { lease = lease; refresh_lease = refresh }

  -- `case "pipe_publish.request"`.
  unfoldable pub publish :
      Token → AuthorityRequest → Draws → Readings → Db → Result ScopedError AuthorityResponse
  publish invite req draws at db = do
    fail_if (not (is_membership invite)) not_membership
    fail_if (not (can_publish invite)) role_denied
    fail_if (is_empty req.pipe_id) pipe_id_required
    grant ←
        new_token g (lit "pipe.publish") h.scope req.client_public req.pipe_id 2_592_000_000_000_000
          draws.token at.minted
    epoch ←
        map_err (λ _. epoch_unavailable)
          (revocation_epoch (scope_text h.scope) pipe_publish req.pipe_id db)
    signed ←
        sign_token g
          (record grant {
            expires_at =
                if ltb invite.expires_at grant.expires_at
                then invite.expires_at
                else grant.expires_at;
            publish_epoch = epoch;
          })
          h.private
    encoded ← encode_token g signed
    ok (record nothing { grant = encoded })

  -- The checks of `case "records.announce"`, and the row it stores.
  unfoldable pub announced_record : Token → AuthorityRequest → Readings → Result ScopedError Record
  announced_record invite req at = do
    fail_if (not (is_membership invite)) not_membership
    fail_if (not (can_publish invite)) role_denied
    fail_if (is_empty req.body) record_required
    r ← parse_record g req.body
    fail_if (not (same r.pipe_id req.pipe_id) || not (same_scope r.scope h.scope)) record_mismatch
    verify_record g r own_public h.scope at.record_checked
    grant ← map_err (λ _. grant_subject_mismatch) (decode_token g r.publish_grant)
    fail_if (not (same grant.subject req.client_public)) grant_subject_mismatch
    payload ← encode_record g r
    ok (record {
      scope = scope_text h.scope;
      pipe_id = r.pipe_id;
      name = r.display_name;
      payload = payload;
      expires_at = r.expires_at;
      sequence = r.sequence;
      discovered = false;
    })

  unfoldable pub announce :
      Token → AuthorityRequest → Readings → Cache → Result ScopedError (AuthorityResponse × Cache)
  announce invite req at cache = do
    row ← announced_record invite req at
    next ← map_err cache_failed (put_authoritative_record row at.stored cache)
    ok (nothing, next)

  -- A stored payload that is still a record of this authority.
  unfoldable pub read_stored : Bytes → ScopedError → ℕ → Result ScopedError PipeRecord
  read_stored payload failure now = do
    r ← map_err (λ _. failure) (parse_record g payload)
    map_err (λ _. failure) (verify_record g r own_public h.scope now)
    ok r
