-- ===== src/Scoped/Refresh.antt =====
-- Refresh leases of internal/runtime/authority.go, and the revocations that fence them.
use tubo.Base.{
  ◌≤◌, ◌<◌, ◌≡◌, refl, ◌≢◌, ◌⊎◌, inl, inr, true, none, arith, Bytes, lit, same, same_iff, ltb_iff,
  Option-cases, ok,
}
use tubo.Store.Exact.Epochs.{WasRevoked-mono, epoch_of_mono, WasRevoked}
use tubo.Store.Exact.{find_revocation, pipe_access, is_revoked, revocation_epoch, Db}
use tubo.Store.Exact.Tables.{epoch_of, Reach}
use tubo.Scoped.Tokens.{decode_token}
use tubo.Scoped.Server.{
  authenticate, AuthorityResponse, AuthorityState, Readings, Draws, AuthorityRequest,
  AuthorityHandler,
}
use tubo.Scoped.{scope_text, Token, ScopedLibrary}
use tubo.Scoped.Operations.{exchange_refresh}
use tubo.Scoped.Process.{process, dispatch}

abbrev pub refresh_operation : Bytes
refresh_operation = lit "connect_refresh.exchange"

dispatch-refresh :
    (g : ScopedLibrary) (h : AuthorityHandler) (req : AuthorityRequest) (draws : Draws)
    (at : Readings) (s : AuthorityState) (invite : Token)
    → req.operation ≡ refresh_operation
    → dispatch g h invite req draws at s ≡ (exchange_refresh g h invite req draws at s.db, s)
unfolding dispatch same
dispatch-refresh g h req draws at s invite e = rw e refl

module _ (g : ScopedLibrary) (h : AuthorityHandler) (req : AuthorityRequest) (draws : Draws)
    (at : Readings) (invite : Token) where
  abbrev pub scope_name : Bytes
  scope_name = scope_text h.scope

  -- What the revocations say of the two leases of an exchange that is answered.
  pub exchange_refresh-current :
      (db : Db) (a : AuthorityResponse) (access : Token)
      → exchange_refresh g h invite req draws at db ≡ ok a
      → decode_token g req.access_lease ≡ ok access
      → (epoch_of scope_name pipe_access req.pipe_id db ≤ access.access_epoch)
        × (epoch_of scope_name pipe_access req.pipe_id db ≤ invite.access_epoch)
        × (find_revocation scope_name (lit "connect.refresh") invite.jti db ≡ none)
        × (find_revocation scope_name (lit "connect.access") access.jti db ≡ none)
  unfolding exchange_refresh revocation_epoch is_revoked
  exchange_refresh-current db a access e read =
      let pipe : invite.audience ≡ req.pipe_id =
        ground (arith, same_iff invite.audience req.pipe_id) in
      elim (Option-cases (find_revocation scope_name (lit "connect.refresh") invite.jti db)) [
        | inr (r, there) ↦ ground arith
        | inl refresh_kept ↦
            elim (Option-cases (find_revocation scope_name (lit "connect.access") access.jti db)) [
              | inr (r, there) ↦ ground arith
              | inl access_kept ↦
                  elim (Option-cases (find_revocation scope_name pipe_access req.pipe_id db)) [
                    | inl never ↦
                        (rw never (omega arith), rw never (omega arith), refresh_kept, access_kept)
                    | inr (r, there) ↦ (
                      rw there (ground (arith, ltb_iff access.access_epoch r.epoch)),
                      rw there (ground (arith, ltb_iff invite.access_epoch r.epoch)),
                      refresh_kept,
                      access_kept,
                    )
                  ]
            ]
      ]

  pub process-refresh :
      (s s' : AuthorityState) (a : AuthorityResponse)
      → process g h req draws at s ≡ (ok a, s')
      → same req.operation refresh_operation ≡ true
      → authenticate g h req at.verified ≡ ok invite
      → (exchange_refresh g h invite req draws at s.db ≡ ok a) × (s' ≡ s)
  unfolding process
  process-refresh s s' a e op known = ground (
    arith,
    dispatch-refresh g h req draws at s invite ((same_iff req.operation refresh_operation).0 op),
  )

  -- Once the pipe's access epoch has passed the epoch of either lease of an exchange, or either lease
  -- has been revoked by its id, the exchange is not answered, in any later state of the store.
  pub exchange-fenced :
      (old : Db) (s s' : AuthorityState) (a : AuthorityResponse) (access : Token)
      → Reach old s.db
      → authenticate g h req at.verified ≡ ok invite
      → decode_token g req.access_lease ≡ ok access
      → same req.operation refresh_operation ≡ true
      → (access.access_epoch < epoch_of scope_name pipe_access req.pipe_id old)
        ⊎ (invite.access_epoch < epoch_of scope_name pipe_access req.pipe_id old)
        ⊎ WasRevoked scope_name (lit "connect.refresh") invite.jti old
        ⊎ WasRevoked scope_name (lit "connect.access") access.jti old
      → process g h req draws at s ≢ (ok a, s')
  exchange-fenced old s s' a access history known read op fence e =
      let (done, _) = process-refresh s s' a e op known in
      let (access_current, refresh_current, refresh_kept, access_kept) =
        exchange_refresh-current s.db a access done read in
      let mono : epoch_of scope_name pipe_access req.pipe_id old
          ≤ epoch_of scope_name pipe_access req.pipe_id s.db =
        epoch_of_mono scope_name pipe_access req.pipe_id history in
      elim fence [
        | inl below ↦ omega arith
        | inr (inl below) ↦ omega arith
        | inr (inr (inl gone)) ↦
            let (r, there) =
              WasRevoked-mono scope_name (lit "connect.refresh") invite.jti history gone in
            ground arith
        | inr (inr (inr gone)) ↦
            let (r, there) =
              WasRevoked-mono scope_name (lit "connect.access") access.jti history gone in
            ground arith
      ]
