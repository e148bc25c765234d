-- ===== src/Scoped/Once.antt =====
-- The one-time invites of internal/runtime/authority.go.
use tubo.Base.{
  ℕ, ◌≡◌, refl, sym, ap, ◌∙◌, ◌⊎◌, inl, inr, Bool, true, none, some, [], ◌∷◌, arith, Bytes, lit,
  same, same_iff, Option-cases, ok, Result-cases, same_key_refl,
}
use tubo.Store.Exact.Redemptions.{find_redemption_stays, find_redemption-insert}
use tubo.Store.Exact.Tables.{Reach, new_redemption}
use tubo.Credential.Encoding.{random_id}
use tubo.Scoped.{scope_text, Token, ScopedLibrary}
use tubo.Store.Exact.{
  find_revocation, is_revoked, scoped, find_redemption, Redemption, Db, redeem_invite,
}
use tubo.Scoped.Server.{
  authenticate, AuthorityResponse, AuthorityState, Readings, Draws, AuthorityRequest,
  AuthorityHandler,
}
use tubo.Scoped.Operations.{redeem_share, redeem}
use tubo.Scoped.Process.{dispatch, process}

-- What a scoped redemption leaves: a row of this client, the one that was there or a new one.
redeem_invite-row :
    (jti pipe_id session_id client : Bytes) (now : ℕ) (done : Bool) (db db' : Db)
    → redeem_invite jti pipe_id session_id client now db ≡ ok (done, db')
    → (r : Redemption) × (find_redemption jti pipe_id db' ≡ some r)
      × (r.client_public ≡ client)
      × ((find_redemption jti pipe_id db ≡ none) ⊎ (find_redemption jti pipe_id db ≡ some r))
unfolding redeem_invite
redeem_invite-row jti pipe_id session_id client now done db db' h =
    elim (Option-cases (find_redemption jti pipe_id db)) [
      | inl new ↦
          let v = new_redemption jti pipe_id session_id client now scoped in
          (
            v,
            ground (
              arith,
              find_redemption-insert jti pipe_id v db.redemptions,
              same_key_refl (jti ∷ pipe_id ∷ []),
            ),
            refl,
            inl new,
          )
      | inr (r, old) ↦ (r, ground arith, ground (arith, same_iff r.client_public client), inr old)
    ]

abbrev pub redeem_operation : Bytes
redeem_operation = lit "share_invite.redeem"

dispatch-redeem :
    (g : ScopedLibrary) (h : AuthorityHandler) (req : AuthorityRequest) (draws : Draws)
    (at : Readings) (s : AuthorityState) (invite : Token)
    → req.operation ≡ redeem_operation
    → dispatch g h invite req draws at s ≡ redeem g h invite req draws at s
unfolding dispatch same
dispatch-redeem g h req draws at s invite e = rw e refl

module _ (g : ScopedLibrary) (h : AuthorityHandler) (req : AuthorityRequest) (draws : Draws)
    (at : Readings) (s s' : AuthorityState) (a : AuthorityResponse) (invite : Token) where
  redeem-redeems :
      redeem g h invite req draws at s ≡ (ok a, s')
      → (session : Bytes) × ((done : Bool) × (redeem_invite invite.jti invite.audience session
              req.client_public at.stored s.db
            ≡ ok (done, s'.db)))
        × (invite.audience ≡ req.pipe_id)
        × (find_revocation (scope_text h.scope) (lit "share.invite") invite.jti s.db ≡ none)
  unfolding redeem redeem_share is_revoked
  redeem-redeems e = elim (Result-cases (random_id g.base (lit "ses_") draws.session)) [
    | inl (session, drawn) ↦
        elim (Result-cases
          (redeem_invite invite.jti invite.audience session req.client_public at.stored s.db)) [
            | inl ((done, next), written) ↦ (
              session,
              (done, ground arith),
              ground (arith, same_iff invite.audience req.pipe_id),
              elim (Option-cases
                  (find_revocation (scope_text h.scope) (lit "share.invite") invite.jti s.db)) [
                    | inl none_there ↦ none_there
                    | inr (r, there) ↦ ground arith
                  ],
            )
            | inr (failure, refused) ↦ ground arith
          ]
    | inr (failure, undrawn) ↦ ground arith
  ]

  pub process-redeems :
      process g h req draws at s ≡ (ok a, s')
      → same req.operation redeem_operation ≡ true
      → authenticate g h req at.verified ≡ ok invite
      → redeem g h invite req draws at s ≡ (ok a, s')
  unfolding process dispatch
  process-redeems e op known = ground (
    arith,
    dispatch-redeem g h req draws at s invite ((same_iff req.operation redeem_operation).0 op),
  )

-- Two redemptions of one invite for one pipe that are both answered, with any history of the store
-- between them, are of one client.
pub redeem_once :
    (g : ScopedLibrary) (h : AuthorityHandler) (first second : AuthorityRequest) (d e : Draws)
    (at later : Readings) (s₁ s₂ s₃ s₄ : AuthorityState) (a b : AuthorityResponse)
    (invite other : Token)
    → process g h first d at s₁ ≡ (ok a, s₂)
    → process g h second e later s₃ ≡ (ok b, s₄)
    → Reach s₂.db s₃.db
    → same first.operation redeem_operation ≡ true
    → same second.operation redeem_operation ≡ true
    → authenticate g h first at.verified ≡ ok invite
    → authenticate g h second later.verified ≡ ok other
    → invite.jti ≡ other.jti
    → invite.audience ≡ other.audience
    → first.client_public ≡ second.client_public
redeem_once g h first second d e at later s₁ s₂ s₃ s₄ a b invite other p q history op₁ op₂ k₁ k₂ jti
      pipe =
    let (session₁, (done₁, wrote₁), _, _) =
      redeem-redeems g h first d at s₁ s₂ a invite
        (process-redeems g h first d at s₁ s₂ a invite p op₁ k₁) in
    let (session₂, (done₂, wrote₂), _, _) =
      redeem-redeems g h second e later s₃ s₄ b other
        (process-redeems g h second e later s₃ s₄ b other q op₂ k₂) in
    let (r, there, mine, _) =
      redeem_invite-row invite.jti invite.audience session₁ first.client_public at.stored done₁
        s₁.db s₂.db wrote₁ in
    let (r', _, theirs, before) =
      redeem_invite-row other.jti other.audience session₂ second.client_public later.stored done₂
        s₃.db s₄.db wrote₂ in
    let kept = find_redemption_stays invite.jti invite.audience r history there in
    let found : find_redemption other.jti other.audience s₃.db ≡ some r =
      ap (λ j. find_redemption j other.audience s₃.db) (sym jti)
      ∙ ap (λ p'. find_redemption invite.jti p' s₃.db) (sym pipe)
      ∙ kept in
    ground (arith, found, before, mine, theirs)
