-- ===== src/Store/Exact/Epochs.antt =====
-- The epochs of the table `revocations` of internal/store/store.go over histories.
use tubo.Base.{
  ℕ, ◌≤◌, ◌≡◌, refl, ap, ◌∙◌, inl, inr, Option, none, some, [], ◌∷◌, arith, Bytes, if◌then◌else◌,
  Bool-cases, ok, same_key, same_key_refl, same_key_iff, merged, find_row-upsert_row,
}
use tubo.Store.Exact.Tables.{
  redeem_invite_and_accept-ok, redeem_invite-ok, redeems, accepts, turns, here, next, revokes,
  row_epoch, Reach, Step, revoke-ok, epoch_of,
}
use tubo.Store.Exact.{subject_key, keep_later, Revocation, find_revocation, revoke, Db}

abbrev revocation_row : Bytes → Bytes → Bytes → ℕ → ℕ → Revocation
revocation_row scope subject_type subject_jti epoch now = record {
  scope = scope;
  subject_type = subject_type;
  subject_jti = subject_jti;
  revoked_at = now;
  epoch = epoch;
}

-- The row of a subject after a revocation that commits.
find_revocation-revoke :
    (scope subject_type subject_jti a b c : Bytes) (epoch now : ℕ) (db db' : Db)
    → revoke a b c epoch now db ≡ ok db'
    → find_revocation scope subject_type subject_jti db' ≡ (
        if same_key (a ∷ b ∷ c ∷ []) (scope ∷ subject_type ∷ subject_jti ∷ [])
        then some (merged keep_later (revocation_row a b c epoch now) (find_revocation a b c db))
        else find_revocation scope subject_type subject_jti db)
find_revocation-revoke scope subject_type subject_jti a b c epoch now db db' h =
    let (pos, bound, shape) = revoke-ok a b c epoch now db db' h in
    ap (find_revocation scope subject_type subject_jti) shape
    ∙ find_row-upsert_row subject_key keep_later (revocation_row a b c epoch now)
        (scope ∷ subject_type ∷ subject_jti ∷ []) db.revocations (λ r. refl)

merged-epoch :
    (a b c : Bytes) (epoch now : ℕ) (found : Option Revocation)
    → row_epoch found ≤ epoch
    → (merged keep_later (revocation_row a b c epoch now) found).epoch ≡ epoch
merged-epoch a b c epoch now none h = refl
merged-epoch a b c epoch now (some r) h = ground arith

-- A revocation that commits gives its subject its epoch, which is not below the old one, and leaves
-- the epoch of every other subject.
pub epoch_of-revoke :
    (scope subject_type subject_jti a b c : Bytes) (epoch now : ℕ) (db db' : Db)
    → revoke a b c epoch now db ≡ ok db'
    → (epoch_of a b c db ≤ epoch)
      × (epoch_of scope subject_type subject_jti db' ≡ (
          if same_key (a ∷ b ∷ c ∷ []) (scope ∷ subject_type ∷ subject_jti ∷ [])
          then epoch
          else epoch_of scope subject_type subject_jti db))
epoch_of-revoke scope subject_type subject_jti a b c epoch now db db' h =
    let (pos, bound, shape) = revoke-ok a b c epoch now db db' h in
    (
      bound,
      rw (find_revocation-revoke scope subject_type subject_jti a b c epoch now db db' h)
          (elim (Bool-cases (same_key (a ∷ b ∷ c ∷ []) (scope ∷ subject_type ∷ subject_jti ∷ []))) [
            | inl hit ↦ rw hit (merged-epoch a b c epoch now (find_revocation a b c db) bound)
            | inr miss ↦ rw miss
          ]),
    )

module _ (scope subject_type subject_jti : Bytes) where
  epoch_of-Step :
      {db db' : Db}
      → Step db db'
      → epoch_of scope subject_type subject_jti db ≤ epoch_of scope subject_type subject_jti db'
  epoch_of-Step {db} {db'} (revokes a b c epoch now h) =
      let (bound, law) = epoch_of-revoke scope subject_type subject_jti a b c epoch now db db' h in
      ground
        (arith, law, bound, same_key_iff (a ∷ b ∷ c ∷ []) (scope ∷ subject_type ∷ subject_jti ∷ []))
  epoch_of-Step {db} {db'} (redeems jti pipe_id session_id client now done h) =
      ground (arith, redeem_invite-ok jti pipe_id session_id client now done db db' h)
  epoch_of-Step {db} {db'} (accepts jti pipe_id session_id client access_epoch now alive done h) =
      ground (
        arith,
        redeem_invite_and_accept-ok jti pipe_id session_id client access_epoch now alive done db db'
            h,
      )
  epoch_of-Step (turns up) = omega arith

  -- Over any history the epoch of a subject never falls.
  pub epoch_of_mono :
      {db db' : Db}
      → Reach db db'
      → epoch_of scope subject_type subject_jti db ≤ epoch_of scope subject_type subject_jti db'
  epoch_of_mono here = omega arith
  epoch_of_mono (next r s) = omega (arith, epoch_of_mono r, epoch_of-Step s)

  abbrev pub WasRevoked : Db → Type 0
  WasRevoked db = (r : Revocation) × (find_revocation scope subject_type subject_jti db ≡ some r)

  WasRevoked-Step : {db db' : Db} → Step db db' → WasRevoked db → WasRevoked db'
  WasRevoked-Step {db} {db'} (revokes a b c epoch now h) (r, old) =
      let law = find_revocation-revoke scope subject_type subject_jti a b c epoch now db db' h in
      elim (Bool-cases (same_key (a ∷ b ∷ c ∷ []) (scope ∷ subject_type ∷ subject_jti ∷ []))) [
        | inl hit ↦ (
          merged keep_later (revocation_row a b c epoch now) (find_revocation a b c db),
          rw hit at law,
        )
        | inr miss ↦ (r, (rw miss at law) ∙ old)
      ]
  WasRevoked-Step {db} {db'} (redeems jti pipe_id session_id client now done h) (r, old) =
      (r, ground (arith, redeem_invite-ok jti pipe_id session_id client now done db db' h))
  WasRevoked-Step {db} {db'} (accepts jti pipe_id session_id client access_epoch now alive done h)
        (r, old) =
      (
        r,
        ground (
          arith,
          redeem_invite_and_accept-ok jti pipe_id session_id client access_epoch now alive done db
              db' h,
        ),
      )
  WasRevoked-Step (turns up) (r, old) = (r, old)

  -- Over any history what is revoked stays revoked.
  pub WasRevoked-mono : {db db' : Db} → Reach db db' → WasRevoked db → WasRevoked db'
  WasRevoked-mono here w = w
  WasRevoked-mono (next r s) w = WasRevoked-Step s (WasRevoked-mono r w)

-- A revocation that commits has revoked its subject.
pub WasRevoked-revoke :
    (scope subject_type subject_jti : Bytes) (epoch now : ℕ) (db db' : Db)
    → revoke scope subject_type subject_jti epoch now db ≡ ok db'
    → WasRevoked scope subject_type subject_jti db'
WasRevoked-revoke scope subject_type subject_jti epoch now db db' h =
    let law =
      find_revocation-revoke scope subject_type subject_jti scope subject_type subject_jti epoch now
        db db' h in
    (
      merged keep_later (revocation_row scope subject_type subject_jti epoch now)
          (find_revocation scope subject_type subject_jti db),
      rw (same_key_refl (scope ∷ subject_type ∷ subject_jti ∷ [])) at law,
    )
