-- ===== src/Scoped/Permission.antt =====
-- Who gets an answer of internal/runtime/authority.go.
use tubo.Base.{
  ℕ, ◌≡◌, inl, inr, Bool, true, ◌&&◌, ◌||◌, [], ◌∷◌, arith, Bytes, lit, same, any, ok, Result-cases,
}
use tubo.Scoped.Process.{process, announcing, revoking, dispatch}
use tubo.Scoped.Server.{
  announced_record, announce, can_connect, can_discover, publish, AuthorityResponse, AuthorityState,
  own_public, Readings, Draws, AuthorityRequest, authenticate, AuthorityHandler,
}
use tubo.Scoped.Operations.{
  issue_revocation, exchange_refresh, issue_access, issue_share, list_records, query_revocations,
  redeem,
}
use tubo.Store.Exact.{Db}
use tubo.Scoped.Tokens.{check_proof, public_of_text, verify_token, decode_token}
use tubo.Scoped.{same_scope, ScopedLibrary, Token}

module _ (g : ScopedLibrary) (h : AuthorityHandler) where
  -- What the token of a request and the request's proof must be.
  abbrev pub IsAuthentic : AuthorityRequest → ℕ → Token → Type 0
  IsAuthentic req now invite =
      (decode_token g req.token ≡ ok invite)
      × (verify_token g invite (own_public g h) now ≡ ok tt)
      × (same_scope invite.scope h.scope ≡ true)
      × ((client : Bytes) × (public_of_text g req.client_public ≡ ok client)
          × (check_proof g client req.proof (lit "tubo-authority-v2")
                (req.operation ∷ req.pipe_id ∷ req.nonce ∷ invite.jti ∷ [])
              ≡ true))

  pub authenticate-IsAuthentic :
      (req : AuthorityRequest) (now : ℕ) (invite : Token)
      → authenticate g h req now ≡ ok invite
      → IsAuthentic req now invite
  unfolding authenticate
  authenticate-IsAuthentic req now invite e = elim (Result-cases (decode_token g req.token)) [
    | inl (t, read) ↦ elim (Result-cases (public_of_text g req.client_public)) [
      | inl (client, key) ↦ (ground arith, ground arith, ground arith, (client, key, ground arith))
      | inr (failure, key) ↦ ground arith
    ]
    | inr (failure, read) ↦ ground arith
  ]

-- Who may ask for what: the operation, the kind of token and the role in it.
unfoldable pub permitted : Bytes → Token → Bool
permitted operation invite =
    let member = same invite.type (lit "membership.invite") in
    (same operation (lit "pipe_publish.request") && member && same invite.role (lit "publisher"))
    || (same operation (lit "records.announce") && member && same invite.role (lit "publisher"))
    || (same operation (lit "records.list")
        && member
        && any (same invite.role)
            (lit "member" ∷ lit "viewer" ∷ lit "publisher" ∷ lit "forwarder" ∷ []))
    || (same operation (lit "connect_access.issue")
        && member
        && any (same invite.role) (lit "member" ∷ lit "publisher" ∷ lit "forwarder" ∷ []))
    || (same operation (lit "connect_refresh.exchange") && same invite.type (lit "connect.refresh"))
    || (same operation (lit "share_invite.issue") && member && same invite.role (lit "publisher"))
    || (same operation (lit "share_invite.redeem")
        && same invite.type (lit "share.invite")
        && invite.one_time)
    || (same operation (lit "revocation.issue") && member && same invite.role (lit "publisher"))
    || (same operation (lit "revocation.query")
        && any (same invite.type)
            (lit "membership.invite" ∷ lit "connect.refresh" ∷ lit "share.invite" ∷ []))

module _ (g : ScopedLibrary) (h : AuthorityHandler) (invite : Token) (req : AuthorityRequest)
    (draws : Draws) (at : Readings) where
  publish-role :
      (db : Db) (a : AuthorityResponse)
      → publish g h invite req draws at db ≡ ok a
      → (same invite.type (lit "membership.invite") ≡ true)
        × (same invite.role (lit "publisher") ≡ true)
  unfolding publish
  publish-role db a e = ground arith

  announcing-role :
      (s s' : AuthorityState) (a : AuthorityResponse)
      → announcing g h invite req at s ≡ (ok a, s')
      → (same invite.type (lit "membership.invite") ≡ true)
        × (same invite.role (lit "publisher") ≡ true)
  unfolding announcing announce announced_record
  announcing-role s s' a e = ground arith

  list_records-role :
      (s s' : AuthorityState) (a : AuthorityResponse)
      → list_records g h invite at s ≡ (ok a, s')
      → (same invite.type (lit "membership.invite") ≡ true) × (can_discover g h invite ≡ true)
  unfolding list_records
  list_records-role s s' a e = ground arith

  issue_access-role :
      (s s' : AuthorityState) (a : AuthorityResponse)
      → issue_access g h invite req draws at s ≡ (ok a, s')
      → (same invite.type (lit "membership.invite") ≡ true) × (can_connect g h invite ≡ true)
  unfolding issue_access
  issue_access-role s s' a e = ground arith

  exchange_refresh-type :
      (db : Db) (a : AuthorityResponse)
      → exchange_refresh g h invite req draws at db ≡ ok a
      → same invite.type (lit "connect.refresh") ≡ true
  unfolding exchange_refresh
  exchange_refresh-type db a e = ground arith

  issue_share-role :
      (s s' : AuthorityState) (a : AuthorityResponse)
      → issue_share g h invite req draws at s ≡ (ok a, s')
      → (same invite.type (lit "membership.invite") ≡ true)
        × (same invite.role (lit "publisher") ≡ true)
  unfolding issue_share
  issue_share-role s s' a e = ground arith

  redeem-type :
      (s s' : AuthorityState) (a : AuthorityResponse)
      → redeem g h invite req draws at s ≡ (ok a, s')
      → (same invite.type (lit "share.invite") ≡ true) × (invite.one_time ≡ true)
  unfolding redeem
  redeem-type s s' a e = ground arith

  revoking-role :
      (s s' : AuthorityState) (a : AuthorityResponse)
      → revoking g h invite req at s ≡ (ok a, s')
      → (same invite.type (lit "membership.invite") ≡ true)
        × (same invite.role (lit "publisher") ≡ true)
  unfolding revoking issue_revocation
  revoking-role s s' a e = ground arith

  query_revocations-type :
      (db : Db) (a : AuthorityResponse)
      → query_revocations g h invite req db ≡ ok a
      → any
          (same invite.type)
          (lit "membership.invite" ∷ lit "connect.refresh" ∷ lit "share.invite" ∷ [])
        ≡ true
  unfolding query_revocations
  query_revocations-type db a e = ground arith

  dispatch-permitted :
      (s s' : AuthorityState) (a : AuthorityResponse)
      → dispatch g h invite req draws at s ≡ (ok a, s')
      → permitted req.operation invite ≡ true
  unfolding dispatch permitted
  dispatch-permitted s s' a e = ground (
    arith,
    publish-role s.db a,
    announcing-role s s' a,
    list_records-role s s' a,
    issue_access-role s s' a,
    exchange_refresh-type s.db a,
    issue_share-role s s' a,
    redeem-type s s' a,
    revoking-role s s' a,
    query_revocations-type s.db a,
  )

-- Only a request is answered whose token decodes, verifies under the authority's own key and is of the
-- authority's scope, whose proof verifies under the client's key for this operation, pipe, nonce and
-- token, and whose operation the token's kind and role permit.
pub process-IsAuthentic :
    (g : ScopedLibrary) (h : AuthorityHandler) (req : AuthorityRequest) (draws : Draws)
    (at : Readings) (s s' : AuthorityState) (a : AuthorityResponse)
    → process g h req draws at s ≡ (ok a, s')
    → (invite : Token) × IsAuthentic g h req at.verified invite
      × (permitted req.operation invite ≡ true)
unfolding process
process-IsAuthentic g h req draws at s s' a e =
    elim (Result-cases (authenticate g h req at.verified)) [
      | inl (invite, known) ↦ (
        invite,
        authenticate-IsAuthentic g h req at.verified invite known,
        dispatch-permitted g h invite req draws at s s' a (ground arith),
      )
      | inr (failure, unknown) ↦ ground arith
    ]
