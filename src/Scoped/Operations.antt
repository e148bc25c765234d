-- ===== src/Scoped/Operations.antt =====
-- internal/runtime/authority.go: the cases of `process`, one by one.
use tubo.Base.{
  ℕ, suc, ◌+◌, ◌/◌, Bool, true, false, not, ◌&&◌, ◌||◌, some, List, [], ◌∷◌, map, Bytes, lit, same,
  is_empty, length, ltb, if◌then◌else◌, Result, ok, err, ◌>>=◌, ◌>>◌, fail_if, or_fail, map_err,
}
use tubo.Scoped.{
  lease_revoked, epoch_revoked, incomplete, epoch_unavailable, needs_share_invite, route_required,
  cache_failed, pipe_id_required, refresh_lease_ttl, revoke_failed, invite_revoked, role_denied,
  grant_subject_mismatch, invalid_access_lease, invalid_publication, invalid_query_token,
  not_membership, revocation_unavailable, stored_invalid, record_missing, redeem_failed,
  already_redeemed, scope_text, ScopedError, ScopedLibrary, Token, PipeRecord, invalid_revocation,
  random_failed, invalid_share_invite, invalid_refresh_lease,
}
use tubo.Scoped.Tokens.{sign_token, encode_token, new_token, verify_token, decode_token, absent}
use tubo.Store.Exact.{
  pipe_publish, pipe_access, revocation_epoch, redeem_invite, revoke, is_revoked, revocations_of,
  Revocation, Db, StoreError, invite_redeemed,
}
use tubo.Store.Records.{max_snapshot_records, authority_snapshot}
use tubo.Credential.Encoding.{random_id}
use tubo.Scoped.Server.{
  answer_leases, own_public, mint_leases, nothing, can_connect, can_discover, can_publish, Draws,
  is_membership, read_stored, AuthorityRequest, AuthorityState, Readings, AuthorityHandler,
  AuthorityResponse, WireRevocation,
}
use tubo.Store.Discovery.{record_in_scope}
use tubo.Store.Cache.{CacheError, Record}
use tubo.Protocol.{max_frame}

abbrev wire_revocation : Revocation → WireRevocation
wire_revocation r = record {
  subject_type = r.subject_type;
  subject_jti = r.subject_jti;
  epoch = r.epoch;
}

-- What an operation answers, with the tables it leaves; they may change before an error.
abbrev pub Answer : Type 0
Answer = Result ScopedError AuthorityResponse × AuthorityState

module _ (g : ScopedLibrary) (h : AuthorityHandler) where
  open g use {unmarshal_route, unmarshal_revocation, length_response}

  abbrev own_scope : Bytes
  own_scope = scope_text h.scope

  -- The loop of `case "records.list"`: the payloads, and whether they are all. `size` bytes are taken
  -- by those before, which are `i`.
  unfoldable pub list_within :
      (ℕ → ℕ) → ℕ → ℕ → List Record → Result ScopedError (List Bytes × Bool)
  list_within listed i size [] = ok ([], true)
  list_within listed i size (s ∷ rows) = do
    r ← read_stored g h s.payload stored_invalid (listed i)
    let shown = same r.visibility (lit "discoverable")
    let over = shown && ltb (max_frame / 2) (size + length s.payload)
    (rest, whole) ←
        if over
        then ok ([], false)
        else list_within listed (suc i) (if shown then size + length s.payload else size) rows
    ok (if shown && not over then s.payload ∷ rest else rest, whole)

  -- `case "records.list"`.
  unfoldable pub list_records : Token → Readings → AuthorityState → Answer
  list_records invite at s =
      elim (do
        fail_if (not (is_membership g h invite)) not_membership
        fail_if (not (can_discover g h invite)) role_denied
        map_err cache_failed
            (authority_snapshot own_scope max_snapshot_records at.pruned s.cache)) [
              | err e ↦ (err e, s)
              | ok (found, next) ↦ (
                do
                  (payloads, whole) ← list_within at.listed 0 0 found.records
                  fail_if (not (found.complete && whole)) incomplete
                  ok (record nothing { records = payloads }),
                record s { cache = next },
              )
            ]

  -- `RecordInScope`, and the record that its payload holds.
  unfoldable pub published_record :
      Result CacheError Record → Readings → Result ScopedError PipeRecord
  published_record found at = do
    stored ← map_err (λ _. record_missing) found
    read_stored g h stored.payload invalid_publication at.record_checked

  -- `case "connect_access.issue"`.
  unfoldable pub issue_access :
      Token → AuthorityRequest → Draws → Readings → AuthorityState → Answer
  issue_access invite req draws at s =
      elim (do
        fail_if (not (is_membership g h invite)) not_membership
        fail_if (not (can_connect g h invite)) role_denied
        fail_if (is_empty req.pipe_id) pipe_id_required) [
          | err e ↦ (err e, s)
          | ok _ ↦
              let (found, next) =
                record_in_scope own_scope req.pipe_id at.pruned at.selected s.cache in
              (
                do
                  r ← published_record found at
                  fail_if (not (same r.access (lit "members"))) needs_share_invite
                  leases ← mint_leases g h req.client_public req.pipe_id draws at s.db
                  ok (answer_leases g h leases),
                record s { cache = next },
              )
        ]

  -- `case "connect_refresh.exchange"`.
  unfoldable pub exchange_refresh :
      Token → AuthorityRequest → Draws → Readings → Db → Result ScopedError AuthorityResponse
  exchange_refresh invite req draws at db = do
    fail_if
        (not (same invite.type (lit "connect.refresh"))
          || not (same invite.audience req.pipe_id)
          || not (same invite.subject req.client_public))
        invalid_refresh_lease
    access ← map_err (λ _. invalid_access_lease) (decode_token g req.access_lease)
    map_err (λ _. invalid_access_lease) (verify_token g access (own_public g h) at.lease_checked)
    fail_if
        (not (same access.type (lit "connect.access"))
          || not (same access.audience invite.audience)
          || not (same access.subject invite.subject))
        invalid_access_lease
    epoch ←
        map_err (λ _. epoch_unavailable) (revocation_epoch own_scope pipe_access invite.audience db)
    fail_if (ltb access.access_epoch epoch || ltb invite.access_epoch epoch) epoch_revoked
    refresh_gone ←
        map_err (λ _. revocation_unavailable)
          (is_revoked own_scope (lit "connect.refresh") invite.jti db)
    fail_if refresh_gone lease_revoked
    access_gone ←
        map_err (λ _. revocation_unavailable)
          (is_revoked own_scope (lit "connect.access") access.jti db)
    fail_if access_gone lease_revoked
    leases ← mint_leases g h req.client_public req.pipe_id draws at db
    ok (answer_leases g h leases)

  -- The invite that `case "share_invite.issue"` signs, for a record and the route to the authority.
  unfoldable pub share_token :
      PipeRecord → AuthorityRequest → Draws → Readings → Db → Result ScopedError Token
  share_token r req draws at db = do
    grant ← map_err (λ _. grant_subject_mismatch) (decode_token g r.publish_grant)
    fail_if (not (same grant.subject req.client_public)) grant_subject_mismatch
    share ←
        new_token g (lit "share.invite") h.scope req.client_public req.pipe_id refresh_lease_ttl
          draws.token at.minted
    route ← or_fail (unmarshal_route req.body) route_required
    fail_if (is_empty route || ltb 8192 (length route)) route_required
    access_epoch ←
        map_err (λ _. epoch_unavailable) (revocation_epoch own_scope pipe_access req.pipe_id db)
    publish_epoch ←
        map_err (λ _. epoch_unavailable) (revocation_epoch own_scope pipe_publish req.pipe_id db)
    sign_token g
        (record share {
          one_time = true;
          access_epoch = access_epoch;
          publish_epoch = publish_epoch;
          authority_address = route;
          pipe_endpoint = some (record {
            peer_id = r.runtime_peer_id;
            addresses = r.addresses;
            protocol = r.protocol;
          });
          display_name_hint = r.display_name;
        })
        h.private

  -- `case "share_invite.issue"`.
  unfoldable pub issue_share : Token → AuthorityRequest → Draws → Readings → AuthorityState → Answer
  issue_share invite req draws at s =
      elim (do
        fail_if (not (is_membership g h invite)) not_membership
        fail_if (not (can_publish g h invite)) role_denied) [
          | err e ↦ (err e, s)
          | ok _ ↦
              let (found, next) =
                record_in_scope own_scope req.pipe_id at.pruned at.selected s.cache in
              (
                do
                  r ← published_record found at
                  share ← share_token r req draws at s.db
                  encoded ← encode_token g share
                  ok (record nothing { invite = encoded }),
                record s { cache = next },
              )
        ]

  abbrev pub redeem_error : StoreError → ScopedError
  redeem_error invite_redeemed = already_redeemed
  redeem_error _ = redeem_failed

  -- `case "share_invite.redeem"` up to the redemption, which is committed before the leases are minted.
  unfoldable pub redeem_share :
      Token
      → AuthorityRequest
      → Result CacheError Record
      → Draws
      → Readings
      → Db
      → Result ScopedError Db
  redeem_share invite req found draws at db = do
    r ← published_record found at
    gone ←
        map_err (λ _. revocation_unavailable)
          (is_revoked own_scope (lit "share.invite") invite.jti db)
    fail_if gone invite_revoked
    session ← map_err (λ _. random_failed) (random_id g.base (lit "ses_") draws.session)
    (_, next) ←
        map_err redeem_error
          (redeem_invite invite.jti invite.audience session req.client_public at.stored db)
    ok next

  unfoldable pub redeem : Token → AuthorityRequest → Draws → Readings → AuthorityState → Answer
  redeem invite req draws at s =
      if not (same invite.type (lit "share.invite"))
        || not invite.one_time
        || not (same invite.audience req.pipe_id)
        || absent invite.pipe_endpoint
      then (err invalid_share_invite, s)
      else (let (found, next) =
            record_in_scope own_scope invite.audience at.pruned at.selected s.cache in
          elim (redeem_share invite req found draws at s.db) [
            | err e ↦ (err e, record s { cache = next })
            | ok db ↦ (
              do
                leases ← mint_leases g h req.client_public req.pipe_id draws at db
                ok (answer_leases g h leases),
              record { db = db; cache = next },
            )
          ])

  -- `case "revocation.issue"`.
  unfoldable pub issue_revocation : Token → AuthorityRequest → Readings → Db → Result ScopedError Db
  issue_revocation invite req at db = do
    fail_if (not (is_membership g h invite)) not_membership
    fail_if (not (can_publish g h invite)) role_denied
    body ← or_fail (unmarshal_revocation req.body) invalid_revocation
    map_err (λ _. revoke_failed)
        (revoke own_scope body.subject_type body.subject_jti body.epoch at.stored db)

  -- `case "revocation.query"`.
  unfoldable pub query_revocations :
      Token → AuthorityRequest → Db → Result ScopedError AuthorityResponse
  query_revocations invite req db = do
    fail_if
        (not (is_membership g h invite)
          && not (same invite.type (lit "connect.refresh"))
          && not (same invite.type (lit "share.invite")))
        invalid_query_token
    rows ← map_err (λ _. revocation_unavailable) (revocations_of own_scope req.subjects db)
    ok (record nothing { revocations = map wire_revocation rows })
