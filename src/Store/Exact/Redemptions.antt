-- ===== src/Store/Exact/Redemptions.antt =====
-- The table `invite_redemptions` of internal/store/store.go over histories.
use tubo.Base.{
  ℕ, ◌≡◌, refl, ap, ◌∙◌, inl, inr, Bool, none, some, List, [], ◌∷◌, arith, Bytes, if◌then◌else◌, ok,
  same_key, same_key_refl, same_key_iff, find_row,
}
use tubo.Store.Exact.{
  exact, scoped, find_redemption, redeem_invite_and_accept, redemption_key, Db, Redemption,
}
use tubo.Store.Exact.Tables.{
  Step, Reach, here, next, revokes, redeems, accepts, turns, revoke-ok, redeem_invite-ok,
  redeem_invite_and_accept-ok, new_redemption,
}

-- A redemption that is inserted answers for its key alone.
pub find_redemption-insert :
    (jti pipe_id : Bytes) (v : Redemption) (rows : List Redemption)
    → find_row redemption_key (jti ∷ pipe_id ∷ []) (v ∷ rows) ≡ (
        if same_key (redemption_key v) (jti ∷ pipe_id ∷ [])
        then some v
        else find_row redemption_key (jti ∷ pipe_id ∷ []) rows)
unfolding find_row
find_redemption-insert jti pipe_id v rows = refl

-- A row under a key that had none hides no other row.
pub insert_keeps :
    (jti pipe_id : Bytes) (v r : Redemption) (rows : List Redemption)
    → find_row redemption_key (redemption_key v) rows ≡ none
    → find_row redemption_key (jti ∷ pipe_id ∷ []) rows ≡ some r
    → find_row redemption_key (jti ∷ pipe_id ∷ []) (v ∷ rows) ≡ some r
insert_keeps jti pipe_id v r rows new old = ground (
  arith,
  find_redemption-insert jti pipe_id v rows,
  same_key_iff (redemption_key v) (jti ∷ pipe_id ∷ []),
)

module _ (jti pipe_id : Bytes) (r : Redemption) where
  pub find_redemption-Step :
      {db db' : Db}
      → Step db db'
      → find_redemption jti pipe_id db ≡ some r
      → find_redemption jti pipe_id db' ≡ some r
  find_redemption-Step {db} {db'} (revokes a b c epoch now h) old =
      ap (find_redemption jti pipe_id) (revoke-ok a b c epoch now db db' h).2 ∙ old
  find_redemption-Step {db} {db'} (redeems j p session_id client now done h) old =
      elim (redeem_invite-ok j p session_id client now done db db' h).2 [
        | inl same_db ↦ ap (find_redemption jti pipe_id) same_db ∙ old
        | inr (new, rows) ↦
            ap (find_row redemption_key (jti ∷ pipe_id ∷ [])) rows
            ∙ insert_keeps jti pipe_id (new_redemption j p session_id client now scoped) r
                db.redemptions new old
      ]
  find_redemption-Step {db} {db'} (accepts j p session_id client access_epoch now alive done h)
        old =
      elim (redeem_invite_and_accept-ok j p session_id client access_epoch now alive done db db'
        h).2 [
          | inl (same_db, _) ↦ ap (find_redemption jti pipe_id) same_db ∙ old
          | inr (new, rows) ↦
              ap (find_redemption jti pipe_id) rows
              ∙ insert_keeps jti pipe_id (new_redemption j p session_id client now exact) r
                  db.redemptions new old
        ]
  find_redemption-Step (turns up) old = old

  -- Over any history a redemption stays as it was written.
  pub find_redemption_stays :
      {db db' : Db}
      → Reach db db'
      → find_redemption jti pipe_id db ≡ some r
      → find_redemption jti pipe_id db' ≡ some r
  find_redemption_stays here old = old
  find_redemption_stays (next h s) old = find_redemption-Step s (find_redemption_stays h old)

-- What a call that succeeds leaves: a redemption of the invite by this client.
pub redeemed_row :
    (jti pipe_id session_id client : Bytes) (access_epoch now : ℕ) (alive done : Bool) (db db' : Db)
    → redeem_invite_and_accept jti pipe_id session_id client access_epoch now alive db
      ≡ ok (done, db')
    → (r : Redemption) × (find_redemption jti pipe_id db' ≡ some r) × (r.client_public ≡ client)
redeemed_row jti pipe_id session_id client access_epoch now alive done db db' h =
    elim (redeem_invite_and_accept-ok jti pipe_id session_id client access_epoch now alive done db
      db' h).2 [
        | inl (same_db, (r, old, mine)) ↦ (r, ap (find_redemption jti pipe_id) same_db ∙ old, mine)
        | inr (new, rows) ↦
            let v = new_redemption jti pipe_id session_id client now exact in
            (
              v,
              ap (find_redemption jti pipe_id) rows
                  ∙ ground (
                    arith,
                    find_redemption-insert jti pipe_id v db.redemptions,
                    same_key_refl (jti ∷ pipe_id ∷ []),
                  ),
              refl,
            )
      ]

-- Two calls that succeed for one invite, with any history between them, are of one client, and the
-- second writes nothing.
pub redeem_invite_and_accept_once :
    (jti pipe_id s₁ s₂ first second : Bytes) (e₁ e₂ now₁ now₂ : ℕ)
    (alive₁ alive₂ done₁ done₂ : Bool) (db db₁ db₂ db₃ : Db)
    → redeem_invite_and_accept jti pipe_id s₁ first e₁ now₁ alive₁ db ≡ ok (done₁, db₁)
    → Reach db₁ db₂
    → redeem_invite_and_accept jti pipe_id s₂ second e₂ now₂ alive₂ db₂ ≡ ok (done₂, db₃)
    → (first ≡ second) × (db₃ ≡ db₂)
redeem_invite_and_accept_once jti pipe_id s₁ s₂ first second e₁ e₂ now₁ now₂ alive₁ alive₂ done₁
      done₂ db db₁ db₂ db₃ h r k =
    let (row, written, mine) = redeemed_row jti pipe_id s₁ first e₁ now₁ alive₁ done₁ db db₁ h in
    let kept = find_redemption_stays jti pipe_id row r written in
    elim (redeem_invite_and_accept-ok jti pipe_id s₂ second e₂ now₂ alive₂ done₂ db₂ db₃ k).2 [
      | inl (same_db, (row', old, theirs)) ↦ (ground (arith, kept, old, mine, theirs), same_db)
      | inr (new, rows) ↦ absurd (ground (arith, kept, new))
    ]
