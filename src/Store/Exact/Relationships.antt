-- ===== src/Store/Exact/Relationships.antt =====
-- What backs an accepted relationship of internal/store/store.go, and what a redemption makes of it.
use tubo.Base.{
  ℕ, ◌≡◌, refl, sym, ap, subst, ◌∙◌, inl, inr, Bool, false, Option, none, some, List, [], ◌∷◌,
  arith, Bytes, is_blank, if◌then◌else◌, Bool-cases, ok, same_key, same_key_iff, find_row,
  upsert_row, merged, find_row-upsert_row,
}
use tubo.Store.Exact.Redemptions.{insert_keeps, find_redemption-Step, find_redemption-insert}
use tubo.Store.Exact.{
  accepted_relationship, find_relationship, keep_accepted_at, Relationship, relationship_key, exact,
  find_redemption, redeem_invite_and_accept, Db, Redemption,
}
use tubo.Store.Exact.Tables.{
  Step, Reach, here, next, revokes, redeems, accepts, turns, revoke-ok, redeem_invite-ok,
  redeem_invite_and_accept-ok, new_redemption, new_relationship,
}

-- A relationship is backed by an exact redemption of its invite, for its pipe and recipient.
abbrev pub IsBackedBy : Db → Bytes → Bytes → Relationship → Type 0
IsBackedBy db pipe_id recipient rel =
    (r : Redemption) × (find_redemption rel.invite_jti pipe_id db ≡ some r)
    × (r.client_public ≡ recipient)
    × (r.kind ≡ exact)

abbrev IsBacked : Db → Type 0
IsBacked db =
    (pipe_id recipient : Bytes) (rel : Relationship)
    → find_relationship pipe_id recipient db ≡ some rel
    → IsBackedBy db pipe_id recipient rel

backing_stays :
    {db db' : Db} (pipe_id recipient : Bytes) (rel : Relationship)
    → Step db db'
    → IsBackedBy db pipe_id recipient rel
    → IsBackedBy db' pipe_id recipient rel
backing_stays pipe_id recipient rel s (r, found, mine, kind) =
    (r, find_redemption-Step rel.invite_jti pipe_id r s found, mine, kind)

-- The relationships after a first redemption.
find_relationship-accept :
    (pipe_id recipient p client jti : Bytes) (access_epoch now : ℕ) (rows : List Relationship)
    → find_row relationship_key (pipe_id ∷ recipient ∷ []) (
        upsert_row relationship_key keep_accepted_at
          (new_relationship p client jti access_epoch now)
          rows)
      ≡ (if same_key (p ∷ client ∷ []) (pipe_id ∷ recipient ∷ [])
          then some (
              merged keep_accepted_at
                (new_relationship p client jti access_epoch now)
                (find_row relationship_key (p ∷ client ∷ []) rows))
          else find_row relationship_key (pipe_id ∷ recipient ∷ []) rows)
find_relationship-accept pipe_id recipient p client jti access_epoch now rows =
    find_row-upsert_row relationship_key keep_accepted_at
      (new_relationship p client jti access_epoch now) (pipe_id ∷ recipient ∷ []) rows (λ r. refl)

pub merged_fields :
    (p client jti : Bytes) (access_epoch now : ℕ) (found : Option Relationship)
    → let rel = merged keep_accepted_at (new_relationship p client jti access_epoch now) found in
      (rel.invite_jti ≡ jti) × (rel.access_epoch ≡ access_epoch)
merged_fields p client jti access_epoch now none = (refl, refl)
merged_fields p client jti access_epoch now (some r) = (refl, refl)

accept-IsBacked :
    (jti p session_id client : Bytes) (access_epoch now : ℕ) (db : Db)
    → find_redemption jti p db ≡ none
    → IsBacked db
    → IsBacked (record db {
      redemptions = new_redemption jti p session_id client now exact ∷ db.redemptions;
      relationships =
          upsert_row relationship_key keep_accepted_at
            (new_relationship p client jti access_epoch now)
            db.relationships;
    })
accept-IsBacked jti p session_id client access_epoch now db new backed pipe_id recipient rel found =
    elim (Bool-cases (same_key (p ∷ client ∷ []) (pipe_id ∷ recipient ∷ []))) [
      | inl hit ↦
          let v = new_redemption jti p session_id client now exact in
          let old = find_row relationship_key (p ∷ client ∷ []) db.relationships in
          let law =
            find_relationship-accept pipe_id recipient p client jti access_epoch now
              db.relationships in
          let keys = (same_key_iff (p ∷ client ∷ []) (pipe_id ∷ recipient ∷ [])).0 hit in
          let fields = merged_fields p client jti access_epoch now old in
          let mine : rel.invite_jti ≡ jti = ground (arith, hit, found, law, fields) in
          (
            v,
            ground (
              arith,
              find_redemption-insert rel.invite_jti pipe_id v db.redemptions,
              same_key_iff (jti ∷ p ∷ []) (rel.invite_jti ∷ pipe_id ∷ []),
              keys,
              mine,
            ),
            ground (arith, keys),
            refl,
          )
      | inr miss ↦
          let (r, old, mine, kind) = backed pipe_id recipient rel (
            sym (
              rw miss at (
                find_relationship-accept pipe_id recipient p client jti access_epoch now
                  db.relationships))
            ∙ found) in
          (
            r,
            insert_keeps rel.invite_jti pipe_id (new_redemption jti p session_id client now exact) r
                db.redemptions new old,
            mine,
            kind,
          )
    ]

-- Tables without rows.
abbrev pub empty_db : Bool → Db
empty_db up = record { available = up; revocations = []; redemptions = []; relationships = [] }

IsBacked-Step : {db db' : Db} → Step db db' → IsBacked db → IsBacked db'
IsBacked-Step {db} {db'} (revokes a b c epoch now h) backed =
    subst IsBacked (sym (revoke-ok a b c epoch now db db' h).2) backed
IsBacked-Step {db} {db'} (redeems j p session_id client now done h) backed =
    λ pipe_id recipient rel found.
      backing_stays pipe_id recipient rel (redeems j p session_id client now done h) (
        backed pipe_id recipient rel (
          ap (find_row relationship_key (pipe_id ∷ recipient ∷ []))
            (sym (redeem_invite-ok j p session_id client now done db db' h).1)
          ∙ found))
IsBacked-Step {db} {db'} (accepts j p session_id client access_epoch now alive done h) backed =
    elim (redeem_invite_and_accept-ok j p session_id client access_epoch now alive done db db'
      h).2 [
        | inl (same_db, _) ↦ subst IsBacked (sym same_db) backed
        | inr (new, rows) ↦
            subst IsBacked (sym rows)
              (accept-IsBacked j p session_id client access_epoch now db new backed)
      ]
IsBacked-Step (turns up) backed = backed

Reach-IsBacked : (up : Bool) {db : Db} → Reach (empty_db up) db → IsBacked db
unfolding find_row
Reach-IsBacked up here = λ pipe_id recipient rel found. cc
Reach-IsBacked up (next r s) = IsBacked-Step s (Reach-IsBacked up r)

-- In every state that a history reaches from empty tables, a relationship is backed: its invite was
-- redeemed by the exact exchange, for its pipe and by its recipient.
pub find_relationship-IsBackedBy :
    (up : Bool) {db : Db} (pipe_id recipient : Bytes) (rel : Relationship)
    → Reach (empty_db up) db
    → find_relationship pipe_id recipient db ≡ some rel
    → IsBackedBy db pipe_id recipient rel
find_relationship-IsBackedBy up pipe_id recipient rel r found =
    Reach-IsBacked up r pipe_id recipient rel found

redeem_guards :
    (jti pipe_id session_id client : Bytes) (access_epoch now : ℕ) (alive done : Bool) (db db' : Db)
    → redeem_invite_and_accept jti pipe_id session_id client access_epoch now alive db
      ≡ ok (done, db')
    → (is_blank pipe_id ≡ false) × (is_blank client ≡ false)
unfolding redeem_invite_and_accept
redeem_guards jti pipe_id session_id client access_epoch now alive done db db' h = ground arith

-- The first redemption of an invite makes it, at its epoch, the relationship of its pipe and client,
-- whatever relationship they had; every other lookup answers as before.
pub accepted_relationship-redeem :
    (jti pipe_id session_id client : Bytes) (access_epoch now : ℕ) (alive done : Bool) (db db' : Db)
    (p c : Bytes)
    → find_redemption jti pipe_id db ≡ none
    → redeem_invite_and_accept jti pipe_id session_id client access_epoch now alive db
      ≡ ok (done, db')
    → accepted_relationship p c db' ≡ (
        if same_key (pipe_id ∷ client ∷ []) (p ∷ c ∷ [])
        then ok (some (jti, access_epoch))
        else accepted_relationship p c db)
unfolding accepted_relationship
accepted_relationship-redeem jti pipe_id session_id client access_epoch now alive done db db' p c
      new h =
    let (pipe_set, client_set) =
      redeem_guards jti pipe_id session_id client access_epoch now alive done db db' h in
    let (_, up, outcome) =
      redeem_invite_and_accept-ok jti pipe_id session_id client access_epoch now alive done db db'
        h in
    elim outcome [
      | inl (same_db, (r, old, mine)) ↦ absurd (ground (arith, old, new))
      | inr (_, rows) ↦ ground (
        arith,
        rows,
        pipe_set,
        client_set,
        up,
        same_key_iff (pipe_id ∷ client ∷ []) (p ∷ c ∷ []),
        find_relationship-accept p c pipe_id client jti access_epoch now db.relationships,
        merged_fields pipe_id client jti access_epoch now
            (find_row relationship_key (pipe_id ∷ client ∷ []) db.relationships),
      )
    ]
