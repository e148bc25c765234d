-- ===== src/Scoped/Process.antt =====
-- internal/runtime/authority.go: `process` and `processSnapshot`.
use tubo.Base.{
  ℕ, suc, not, ◌||◌, List, [], ◌∷◌, Bytes, lit, same, length, ltb, if◌then◌else◌, Result, ok, err,
  ◌>>=◌, ◌>>◌, fail_if, or_fail, map_err,
}
use tubo.Scoped.{
  invalid_proof, invalid_client_key, role_denied, not_membership, unknown_operation, same_scope,
  field_exceeds_limit, scope_text, max_token_size, stored_invalid, cache_failed, incomplete,
  ScopedError, ScopedLibrary, Token,
}
use tubo.Scoped.Tokens.{check_proof, public_of_text, verify_token, decode_token}
use tubo.Scoped.Server.{
  can_discover, is_membership, own_public, nothing, announce, authenticate, publish,
  AuthorityResponse, Draws, bounded_strings, read_stored, AuthorityRequest, AuthorityState,
  Readings, AuthorityHandler,
}
use tubo.Scoped.Operations.{
  query_revocations, redeem, issue_share, exchange_refresh, issue_access, list_records,
  issue_revocation, Answer,
}
use tubo.Store.Records.{max_snapshot_records, authority_snapshot, SnapshotAnswer}
use tubo.Store.Cache.{Record}
use tubo.Protocol.{max_frame}

-- `wire.AuthoritySnapshotRequest`.
pub record AuthoritySnapshotRequest : Type 0 where
  pub token : Bytes
  pub client_public : Bytes
  pub nonce : Bytes
  pub proof : Bytes

-- `wire.AuthoritySnapshotResponse` where it is OK.
pub record AuthoritySnapshotResponse : Type 0 where
  pub generation : ℕ
  pub high_water : ℕ
  pub records : List Bytes

module _ (g : ScopedLibrary) (h : AuthorityHandler) where
  open g use {length_response}

  -- An answer without a change of the tables.
  abbrev answers : AuthorityState → Result ScopedError AuthorityResponse → Answer
  answers s a = (a, s)

  -- `case "records.announce"`.
  unfoldable pub announcing : Token → AuthorityRequest → Readings → AuthorityState → Answer
  announcing invite req at s = elim (announce g h invite req at s.cache) [
    | err e ↦ (err e, s)
    | ok (a, next) ↦ (ok a, record s { cache = next })
  ]

  unfoldable pub revoking : Token → AuthorityRequest → Readings → AuthorityState → Answer
  revoking invite req at s = elim (issue_revocation g h invite req at s.db) [
    | err e ↦ (err e, s)
    | ok next ↦ (ok nothing, record s { db = next })
  ]

  -- The `switch` of `process`.
  unfoldable pub dispatch : Token → AuthorityRequest → Draws → Readings → AuthorityState → Answer
  dispatch invite req draws at s =
      if same req.operation (lit "pipe_publish.request")
      then answers s (publish g h invite req draws at s.db)
      else if same req.operation (lit "records.announce")
      then announcing invite req at s
      else if same req.operation (lit "records.list")
      then list_records g h invite at s
      else if same req.operation (lit "connect_access.issue")
      then issue_access g h invite req draws at s
      else if same req.operation (lit "connect_refresh.exchange")
      then answers s (exchange_refresh g h invite req draws at s.db)
      else if same req.operation (lit "share_invite.issue")
      then issue_share g h invite req draws at s
      else if same req.operation (lit "share_invite.redeem")
      then redeem g h invite req draws at s
      else if same req.operation (lit "revocation.issue")
      then revoking invite req at s
      else if same req.operation (lit "revocation.query")
      then answers s (query_revocations g h invite req s.db)
      else answers s (err unknown_operation)

  -- `process`.
  unfoldable pub process : AuthorityRequest → Draws → Readings → AuthorityState → Answer
  process req draws at s = elim (authenticate g h req at.verified) [
    | err e ↦ (err e, s)
    | ok invite ↦ dispatch invite req draws at s
  ]

  -- What `processSnapshot` does before it reads the tables.
  unfoldable pub authenticate_snapshot : AuthoritySnapshotRequest → ℕ → Result ScopedError Token
  authenticate_snapshot req now = do
    fail_if
        (not (bounded_strings 8192 (req.client_public ∷ req.nonce ∷ req.proof ∷ []))
          || ltb max_token_size (length req.token))
        field_exceeds_limit
    invite ← decode_token g req.token
    verify_token g invite (own_public g h) now
    fail_if (not (is_membership g h invite) || not (same_scope invite.scope h.scope)) not_membership
    fail_if (not (can_discover g h invite)) role_denied
    client ← map_err (λ _. invalid_client_key) (public_of_text g req.client_public)
    fail_if
        (not (
          check_proof g client req.proof (lit "tubo-authority-v2")
            (lit "records.list" ∷ [] ∷ req.nonce ∷ invite.jti ∷ [])))
        invalid_proof
    ok invite

  -- The loop of `processSnapshot`, after `i` records.
  unfoldable pub discoverable_payloads : (ℕ → ℕ) → ℕ → List Record → Result ScopedError (List Bytes)
  discoverable_payloads listed i [] = ok []
  discoverable_payloads listed i (s ∷ rows) = do
    r ← read_stored g h s.payload stored_invalid (listed i)
    rest ← discoverable_payloads listed (suc i) rows
    ok (if same r.visibility (lit "discoverable") then s.payload ∷ rest else rest)

  unfoldable pub snapshot_response :
      SnapshotAnswer → Readings → Result ScopedError AuthoritySnapshotResponse
  snapshot_response found at = do
    fail_if (not found.complete) incomplete
    payloads ← discoverable_payloads at.listed 0 found.records
    size ← or_fail (length_response found.generation found.high_water payloads) incomplete
    fail_if (ltb max_frame size) incomplete
    ok (record { generation = found.generation; high_water = found.high_water; records = payloads })

  -- `processSnapshot`.
  unfoldable pub process_snapshot :
      AuthoritySnapshotRequest
      → Readings
      → AuthorityState
      → Result ScopedError AuthoritySnapshotResponse × AuthorityState
  process_snapshot req at s =
      elim (do
        _ ← authenticate_snapshot req at.verified
        map_err cache_failed
            (authority_snapshot (scope_text h.scope) max_snapshot_records at.pruned s.cache)) [
              | err e ↦ (err e, s)
              | ok (found, next) ↦ (snapshot_response found at, record s { cache = next })
            ]
