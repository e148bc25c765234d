-- ===== src/Store/Exact.antt =====
-- internal/store/store.go: revocations, invite redemptions and accepted exact relationships, the
-- tables behind internal/store/exactauthority_adapter.go. An error leaves the tables as they were.
pub mod Tables
pub mod Epochs
pub mod Redemptions
pub mod Relationships
use tubo.Base.{
  ◌+◌, ℕ, ◌-◌, Bool, true, false, not, ◌&&◌, ◌||◌, Option, none, some, List, [], ◌∷◌, Bytes, lit,
  same, contains_string, is_blank, length, ltb, leb, ◌==◌, if◌then◌else◌, Result, ok, err, ◌>>=◌,
  ◌>>◌, fail_if, find_row, upsert_row,
}

-- One row of each table; the primary keys are those of the `CREATE TABLE` statements.
pub record Revocation : Type 0 where
  pub scope : Bytes
  pub subject_type : Bytes
  pub subject_jti : Bytes
  pub revoked_at : ℕ
  pub epoch : ℕ

pub data RedemptionKind : Type 0 where
  scoped exact : RedemptionKind

pub record Redemption : Type 0 where
  pub jti : Bytes
  pub pipe_id : Bytes
  pub redeemed_at : ℕ
  pub session_id : Bytes
  pub client_public : Bytes
  pub kind : RedemptionKind

pub record Relationship : Type 0 where
  pub pipe_id : Bytes
  pub recipient_public : Bytes
  pub invite_jti : Bytes
  pub access_epoch : ℕ
  pub accepted_at : ℕ
  pub updated_at : ℕ

-- The tables `revocations`, `invite_redemptions` and `accepted_exact_relationships`. A statement
-- fails where the database is not available.
pub record Db : Type 0 where
  pub available : Bool
  pub revocations : List Revocation
  pub redemptions : List Redemption
  pub relationships : List Relationship

pub data StoreError : Type 0 where
  invalid_revocation invalid_epoch epoch_rollback : StoreError
  invalid_redemption invite_redeemed invalid_lookup : StoreError
  unavailable canceled : StoreError

abbrev pub pipe_access : Bytes
pipe_access = lit "pipe-access"

abbrev pub pipe_publish : Bytes
pipe_publish = lit "pipe-publish"

-- The primary keys.
abbrev pub subject_key : Revocation → List Bytes
subject_key r = r.scope ∷ r.subject_type ∷ r.subject_jti ∷ []

abbrev pub redemption_key : Redemption → List Bytes
redemption_key r = r.jti ∷ r.pipe_id ∷ []

abbrev pub relationship_key : Relationship → List Bytes
relationship_key r = r.pipe_id ∷ r.recipient_public ∷ []

abbrev pub find_revocation : Bytes → Bytes → Bytes → Db → Option Revocation
find_revocation scope subject_type subject_jti db =
    find_row subject_key (scope ∷ subject_type ∷ subject_jti ∷ []) db.revocations

abbrev pub find_redemption : Bytes → Bytes → Db → Option Redemption
find_redemption jti pipe_id db = find_row redemption_key (jti ∷ pipe_id ∷ []) db.redemptions

abbrev pub find_relationship : Bytes → Bytes → Db → Option Relationship
find_relationship pipe_id recipient db =
    find_row relationship_key (pipe_id ∷ recipient ∷ []) db.relationships

-- `ON CONFLICT … DO UPDATE … WHERE excluded.epoch>=revocations.epoch`.
abbrev pub keep_later : Revocation → Revocation → Revocation
keep_later r v = record v {
  revoked_at = if leb r.epoch v.epoch then v.revoked_at else r.revoked_at;
  epoch = if leb r.epoch v.epoch then v.epoch else r.epoch;
}

-- `ON CONFLICT … DO UPDATE` of the other columns; `accepted_at` stays.
abbrev pub keep_accepted_at : Relationship → Relationship → Relationship
keep_accepted_at r v = record v { accepted_at = r.accepted_at }

abbrev pub epoch_below : ℕ → Option Revocation → Bool
epoch_below epoch none = false
epoch_below epoch (some r) = ltb epoch r.epoch

-- `Revoke`. An error rolls the transaction back. The second query, of the largest epoch of a pipe
-- subject, reads the one row of the primary key that the first has read.
unfoldable pub revoke : Bytes → Bytes → Bytes → ℕ → ℕ → Db → Result StoreError Db
revoke scope subject_type subject_jti epoch now db = do
  fail_if
      (is_blank scope
        || is_blank subject_type
        || is_blank subject_jti
        || ltb 8192 (length scope)
        || ltb 128 (length subject_type)
        || ltb 8192 (length subject_jti))
      invalid_revocation
  fail_if (epoch == 0) invalid_epoch
  fail_if (not db.available) unavailable
  fail_if (epoch_below epoch (find_revocation scope subject_type subject_jti db)) epoch_rollback
  ok (record db {
    revocations =
        upsert_row subject_key keep_later
          (record {
            scope = scope;
            subject_type = subject_type;
            subject_jti = subject_jti;
            revoked_at = now;
            epoch = epoch;
          })
          db.revocations;
  })

-- `RevocationEpoch`.
unfoldable pub revocation_epoch : Bytes → Bytes → Bytes → Db → Result StoreError ℕ
revocation_epoch scope subject_type subject_jti db = do
  fail_if (not db.available) unavailable
  ok (elim (find_revocation scope subject_type subject_jti db) [ none ↦ 0 | some r ↦ r.epoch ])

-- `IsRevoked`.
unfoldable pub is_revoked : Bytes → Bytes → Bytes → Db → Result StoreError Bool
is_revoked scope subject_type subject_jti db = do
  fail_if (not db.available) unavailable
  ok (elim (find_revocation scope subject_type subject_jti db) [ none ↦ false | some _ ↦ true ])

abbrev blank_redemption : Bytes → Bytes → Bytes → Bytes → Bool
blank_redemption jti pipe_id session_id client =
    is_blank jti || is_blank pipe_id || is_blank session_id || is_blank client

-- `RedeemInvite`, the scoped family. The answer is whether this call consumed the invite.
unfoldable pub redeem_invite :
    Bytes → Bytes → Bytes → Bytes → ℕ → Db → Result StoreError (Bool × Db)
redeem_invite jti pipe_id session_id client now db = do
  fail_if (blank_redemption jti pipe_id session_id client) invalid_redemption
  fail_if (not db.available) unavailable
  elim (find_redemption jti pipe_id db) [
    | none ↦ ok (
      true,
      record db {
        redemptions =
            record {
              jti = jti;
              pipe_id = pipe_id;
              redeemed_at = now;
              session_id = session_id;
              client_public = client;
              kind = scoped;
            }
            ∷ db.redemptions;
      },
    )
    | some r ↦ if same r.client_public client then ok (false, db) else err invite_redeemed
  ]

-- `RedeemInviteAndAccept`; `alive` is whether the context is live when the transaction has begun.
unfoldable pub redeem_invite_and_accept :
    Bytes → Bytes → Bytes → Bytes → ℕ → ℕ → Bool → Db → Result StoreError (Bool × Db)
redeem_invite_and_accept jti pipe_id session_id client access_epoch now alive db = do
  fail_if (blank_redemption jti pipe_id session_id client) invalid_redemption
  fail_if (not db.available) unavailable
  fail_if (not alive) canceled
  elim (find_redemption jti pipe_id db) [
    | none ↦ ok (
      true,
      record db {
        redemptions =
            record {
              jti = jti;
              pipe_id = pipe_id;
              redeemed_at = now;
              session_id = session_id;
              client_public = client;
              kind = exact;
            }
            ∷ db.redemptions;
        relationships =
            upsert_row relationship_key keep_accepted_at
              (record {
                pipe_id = pipe_id;
                recipient_public = client;
                invite_jti = jti;
                access_epoch = access_epoch;
                accepted_at = now;
                updated_at = now;
              })
              db.relationships;
      },
    )
    | some r ↦ if same r.client_public client then ok (true, db) else err invite_redeemed
  ]

-- `AcceptedRelationship`: the backing invite and the accepted epoch, if there is a relationship.
unfoldable pub accepted_relationship : Bytes → Bytes → Db → Result StoreError (Option (Bytes × ℕ))
accepted_relationship pipe_id client db = do
  fail_if (is_blank pipe_id || is_blank client) invalid_lookup
  fail_if (not db.available) unavailable
  ok (elim (find_relationship pipe_id client db) [
    | none ↦ none
    | some r ↦ some (r.invite_jti, r.access_epoch)
  ])

abbrev is_exact : RedemptionKind → Bool
is_exact exact = true
is_exact scoped = false

-- `WHERE jti=? AND kind='exact' LIMIT 1`, in the order of the table.
unfoldable pub find_exact_pipe : Bytes → List Redemption → Option Bytes
find_exact_pipe jti [] = none
find_exact_pipe jti (r ∷ rs) =
    let rest = find_exact_pipe jti rs in
    if same r.jti jti && is_exact r.kind then some r.pipe_id else rest

-- `ExactRedemptionPipeForInvite`.
unfoldable pub exact_redemption_pipe_for_invite : Bytes → Db → Result StoreError (Option Bytes)
exact_redemption_pipe_for_invite jti db = do
  fail_if (is_blank jti) invalid_lookup
  fail_if (not db.available) unavailable
  ok (find_exact_pipe jti db.redemptions)

-- `ResolveRevokeInvite`: the family of the invite, and the scope of an exact one.
unfoldable pub resolve_revoke_invite : Bytes → Db → Result StoreError (RedemptionKind × Bytes)
resolve_revoke_invite jti db = do
  pipe ← exact_redemption_pipe_for_invite jti db
  ok (elim pipe [ none ↦ (scoped, []) | some pipe_id ↦ (exact, pipe_id) ])

unfoldable pub select_revocations : (Revocation → Bool) → List Revocation → List Revocation
select_revocations test [] = []
select_revocations test (r ∷ rs) =
    let rest = select_revocations test rs in if test r then r ∷ rest else rest

-- `Revocations`, in the order of the table.
unfoldable pub revocations_of : Bytes → List Bytes → Db → Result StoreError (List Revocation)
revocations_of scope subject_jtis db = if is_none subject_jtis then ok [] else (do
  fail_if (ltb 256 (length subject_jtis)) invalid_lookup
  fail_if (not db.available) unavailable
  ok (
      select_revocations (λ r. same r.scope scope && contains_string r.subject_jti subject_jtis)
        db.revocations))
  where
    is_none : List Bytes → Bool
    is_none [] = true
    is_none (_ ∷ _) = false

unfoldable count_redemptions : Bytes → Bytes → List Redemption → ℕ
count_redemptions jti pipe_id [] = 0
count_redemptions jti pipe_id (r ∷ rs) =
    let rest = count_redemptions jti pipe_id rs in
    if same r.jti jti && same r.pipe_id pipe_id then rest + 1 else rest

-- `RedemptionCount`.
unfoldable redemption_count : Bytes → Bytes → Db → Result StoreError ℕ
redemption_count jti pipe_id db = do
  fail_if (not db.available) unavailable
  ok (count_redemptions jti pipe_id db.redemptions)

-- `WHERE jti=? LIMIT 1`, in the order of the table.
unfoldable find_redeemed_pipe : Bytes → List Redemption → Option Bytes
find_redeemed_pipe jti [] = none
find_redeemed_pipe jti (r ∷ rs) =
    let rest = find_redeemed_pipe jti rs in if same r.jti jti then some r.pipe_id else rest

-- `RedemptionPipeForInvite`.
unfoldable redemption_pipe_for_invite : Bytes → Db → Result StoreError (Option Bytes)
redemption_pipe_for_invite jti db = do
  fail_if (is_blank jti) invalid_lookup
  fail_if (not db.available) unavailable
  ok (find_redeemed_pipe jti db.redemptions)
