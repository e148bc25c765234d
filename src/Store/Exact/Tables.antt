-- ===== src/Store/Exact/Tables.antt =====
-- Histories of the tables of internal/store/store.go, and the inversion of each operation.
use tubo.Base.{
  ℕ, ◌≤◌, ◌<◌, ◌≡◌, ◌⊎◌, inl, inr, Bool, true, Option, none, some, ◌∷◌, arith, Bytes, same_iff,
  Option-cases, ok, upsert_row,
}
use tubo.Store.Exact.{
  keep_accepted_at, relationship_key, exact, Redemption, RedemptionKind, Relationship, keep_later,
  scoped, find_redemption, find_revocation, redeem_invite_and_accept, subject_key, Db, Revocation,
  redeem_invite, revoke,
}

-- One transaction that commits, or a change of availability.
pub data Step : Db → Db → Type 0 where
  revokes :
      {db db' : Db} (scope subject_type subject_jti : Bytes) (epoch now : ℕ)
      → revoke scope subject_type subject_jti epoch now db ≡ ok db'
      → Step db db'
  redeems :
      {db db' : Db} (jti pipe_id session_id client : Bytes) (now : ℕ) (done : Bool)
      → redeem_invite jti pipe_id session_id client now db ≡ ok (done, db')
      → Step db db'
  accepts :
      {db db' : Db} (jti pipe_id session_id client : Bytes) (access_epoch now : ℕ)
      (alive done : Bool)
      → redeem_invite_and_accept jti pipe_id session_id client access_epoch now alive db
        ≡ ok (done, db')
      → Step db db'
  turns : {db : Db} (up : Bool) → Step db (record db { available = up })

-- Any history of such steps, by any processes, in any order.
pub data Reach (db : Db) : Db → Type 0 where
  here : Reach db db
  next : {a b : Db} → Reach db a → Step a b → Reach db b

-- The epoch of a subject, 0 where it was never revoked.
abbrev pub row_epoch : Option Revocation → ℕ
row_epoch none = 0
row_epoch (some r) = r.epoch

abbrev pub epoch_of : Bytes → Bytes → Bytes → Db → ℕ
epoch_of scope subject_type subject_jti db =
    row_epoch (find_revocation scope subject_type subject_jti db)

-- What a revocation that commits was given, and what it leaves.
pub revoke-ok :
    (scope subject_type subject_jti : Bytes) (epoch now : ℕ) (db db' : Db)
    → revoke scope subject_type subject_jti epoch now db ≡ ok db'
    → (0 < epoch)
      × (epoch_of scope subject_type subject_jti db ≤ epoch)
      × (db' ≡ record db {
        revocations =
            upsert_row subject_key keep_later
              (record {
                scope = scope;
                subject_type = subject_type;
                subject_jti = subject_jti;
                revoked_at = now;
                epoch = epoch;
              })
              db.revocations;
      })
unfolding revoke
revoke-ok scope subject_type subject_jti epoch now db db' h = ground arith

pub redeem_invite-ok :
    (jti pipe_id session_id client : Bytes) (now : ℕ) (done : Bool) (db db' : Db)
    → redeem_invite jti pipe_id session_id client now db ≡ ok (done, db')
    → (db'.revocations ≡ db.revocations)
      × (db'.relationships ≡ db.relationships)
      × ((db' ≡ db)
          ⊎ (find_redemption jti pipe_id db ≡ none)
            × (db'.redemptions
                ≡ record {
                  jti = jti;
                  pipe_id = pipe_id;
                  redeemed_at = now;
                  session_id = session_id;
                  client_public = client;
                  kind = scoped;
                }
                  ∷ db.redemptions))
unfolding redeem_invite
redeem_invite-ok jti pipe_id session_id client now done db db' h = ground arith

abbrev pub new_redemption : Bytes → Bytes → Bytes → Bytes → ℕ → RedemptionKind → Redemption
new_redemption jti pipe_id session_id client now kind = record {
  jti = jti;
  pipe_id = pipe_id;
  redeemed_at = now;
  session_id = session_id;
  client_public = client;
  kind = kind;
}

abbrev pub new_relationship : Bytes → Bytes → Bytes → ℕ → ℕ → Relationship
new_relationship pipe_id client jti access_epoch now = record {
  pipe_id = pipe_id;
  recipient_public = client;
  invite_jti = jti;
  access_epoch = access_epoch;
  accepted_at = now;
  updated_at = now;
}

-- A retry by the recipient of record changes nothing; the first redemption writes both tables.
pub redeem_invite_and_accept-ok :
    (jti pipe_id session_id client : Bytes) (access_epoch now : ℕ) (alive done : Bool) (db db' : Db)
    → redeem_invite_and_accept jti pipe_id session_id client access_epoch now alive db
      ≡ ok (done, db')
    → (done ≡ true)
      × (db.available ≡ true)
      × (((db' ≡ db)
            × ((r : Redemption) × (find_redemption jti pipe_id db ≡ some r)
                × (r.client_public ≡ client)))
          ⊎ (find_redemption jti pipe_id db ≡ none)
            × (db' ≡ record db {
              redemptions = new_redemption jti pipe_id session_id client now exact ∷ db.redemptions;
              relationships =
                  upsert_row relationship_key keep_accepted_at
                    (new_relationship pipe_id client jti access_epoch now)
                    db.relationships;
            }))
unfolding redeem_invite_and_accept
redeem_invite_and_accept-ok jti pipe_id session_id client access_epoch now alive done db db' h =
    elim (Option-cases (find_redemption jti pipe_id db)) [
      | inl new ↦ ground arith
      | inr (r, old) ↦
          let mine : r.client_public ≡ client = ground (arith, same_iff r.client_public client) in
          (
            ground arith,
            ground arith,
            inl (ground (arith, same_iff r.client_public client), (r, old, mine)),
          )
    ]
