-- ===== src/Exact/Redeem/Effects.antt =====
-- What a call of internal/exactauthority/redeem.go leaves in the tables.
use tubo.Base.{
  upsert_row, ◌≡◌, ◌≢◌, ◌↔◌, ◌⊎◌, inl, inr, Bool, true, false, none, some, [], ◌∷◌, arith, Bytes,
  lit, Result, ok, err, Result-cases,
}
use tubo.Store.Exact.{
  exact, Redemption, find_redemption, relationship_key, keep_accepted_at, pipe_access,
  find_revocation, revocation_epoch, is_revoked, StoreError, redeem_invite_and_accept, Db,
}
use tubo.Store.Exact.Tables.{
  epoch_of, new_redemption, new_relationship, redeem_invite_and_accept-ok,
}
use tubo.Credential.{redeem_proof_purpose, AccessLease, ExactInvite, Library, OwnerBinding}
use tubo.Credential.Encoding.{verify_proof, public_from_string, random_id}
use tubo.Credential.Invite.{decode_invite, verify_invite}
use tubo.Exact.Bound.{IsLoaded, load-IsLoaded, check_invite_binding-IsBound}
use tubo.Credential.Binding.Verify.{IsBound}
use tubo.Credential.Invite.Verify.{IsValidInvite, verify_invite-IsValidInvite}
use tubo.Credential.Lease.{effective_now}
use tubo.Credential.Lease.Mint.{IsMinted, new_access_lease-IsMinted}
use tubo.Exact.{load, Authority, ExactError}
use tubo.Exact.Redeem.{
  bootstrap_lifetime, check_invite_binding, check_invite_state, check_redeem_proof, redeem_mint,
  redeem_checks, RedeemCall, redeem_exact_invite, redeem_write,
}

redeem-ok :
    (g : Library) (c : RedeemCall) (db db' : Db) (l : AccessLease)
    → redeem_exact_invite g c db ≡ (ok l, db')
    → (invite : ExactInvite) × (auth : Authority) × (redeem_checks g c db ≡ ok (invite, auth))
      × (redeem_write g c invite db ≡ ok db')
      × (redeem_mint g c invite auth ≡ ok l)
unfolding redeem_exact_invite
redeem-ok g c db db' l h = elim (Result-cases (redeem_checks g c db)) [
  | inr (e, failed) ↦ absurd (ground arith)
  | inl ((invite, auth), checked) ↦ elim (Result-cases (redeem_write g c invite db)) [
    | inr (e, failed) ↦ absurd (ground arith)
    | inl (db'', written) ↦ (invite, auth, checked, ground arith, ground arith)
  ]
]

-- A redemption that fails leaves the tables as they were, unless all was checked and written and
-- only the minting of the lease failed.
pub redeem_exact_invite-err :
    (g : Library) (c : RedeemCall) (db db' : Db) (e : ExactError)
    → redeem_exact_invite g c db ≡ (err e, db')
    → (db' ≡ db)
      ⊎ ((invite : ExactInvite) × (auth : Authority) × (redeem_checks g c db ≡ ok (invite, auth))
          × (redeem_write g c invite db ≡ ok db')
          × (redeem_mint g c invite auth ≡ err e))
unfolding redeem_exact_invite
redeem_exact_invite-err g c db db' e h = elim (Result-cases (redeem_checks g c db)) [
  | inr (e', failed) ↦ inl (ground arith)
  | inl ((invite, auth), checked) ↦ elim (Result-cases (redeem_write g c invite db)) [
    | inr (e', failed) ↦ inl (ground arith)
    | inl (db'', written) ↦ inr (invite, auth, checked, ground arith, ground arith)
  ]
]

redeem_write-ok :
    (g : Library) (c : RedeemCall) (invite : ExactInvite) (db db' : Db)
    → redeem_write g c invite db ≡ ok db'
    → (session_id : Bytes) × (random_id g (lit "ses_") c.session_random ≡ ok session_id)
      × (redeem_invite_and_accept invite.jti invite.audience_pipe_id session_id c.recipient_public
            invite.access_epoch c.now c.alive db
          ≡ ok (true, db'))
unfolding redeem_write
redeem_write-ok g c invite db db' h =
    elim (Result-cases (random_id g (lit "ses_") c.session_random)) [
      | inr (e, failed) ↦ absurd (ground arith)
      | inl (session_id, drawn) ↦ (session_id, drawn, write_answer session_id drawn)
    ]
  where
    call : Bytes → Result StoreError (Bool × Db)
    call session_id =
        redeem_invite_and_accept invite.jti invite.audience_pipe_id session_id c.recipient_public
          invite.access_epoch c.now c.alive db

    write_answer :
        (session_id : Bytes)
        → random_id g (lit "ses_") c.session_random ≡ ok session_id
        → call session_id ≡ ok (true, db')
    write_answer session_id drawn = elim (Result-cases (call session_id)) [
      | inr (e, failed) ↦ absurd (ground arith)
      | inl ((true, db''), done) ↦ ground arith
      | inl ((false, db''), done) ↦ absurd (ground arith)
    ]

-- What the checks of a redemption have established.
pub record IsRedeemable (g : Library) (c : RedeemCall) (db : Db) (scope : Bytes)
    (invite : ExactInvite) (auth : Authority) : Type 0 where
  pub wired : c.adapter ≡ some scope
  pub coded : decode_invite g c.encoded_invite ≡ ok invite
  pub bound :
      (b : OwnerBinding) × (owner : Bytes) × IsBound g invite.binding invite.audience_pipe_id
        invite.issuer b owner
  pub loaded : IsLoaded g c.loader auth
  pub valid : IsValidInvite g invite invite.audience_pipe_id (effective_now c.wall c.now)
  pub verified : verify_invite g invite c.now c.wall invite.audience_pipe_id ≡ ok tt
  pub one_time : invite.one_time ≡ true
  pub possessed :
      (k : Bytes) × (public_from_string g c.recipient_public ≡ ok k)
      × (c.server_challenge ≢ [])
      × (verify_proof g k c.challenge_proof redeem_proof_purpose
            (invite.jti ∷ invite.audience_pipe_id ∷ c.server_challenge ∷ [])
          ≡ true)
  pub answers : db.available ≡ true
  pub not_revoked : find_revocation scope (lit "exact.invite") invite.jti db ≡ none
  pub current : epoch_of scope pipe_access invite.audience_pipe_id db ≡ invite.access_epoch

check_invite_state_iff :
    (g : Library) (scope : Bytes) (invite : ExactInvite) (db : Db)
    → (check_invite_state g scope invite db ≡ ok tt) ↔ (
        (db.available ≡ true)
        × (find_revocation scope (lit "exact.invite") invite.jti db ≡ none)
        × (epoch_of scope pipe_access invite.audience_pipe_id db ≡ invite.access_epoch))
unfolding check_invite_state is_revoked revocation_epoch
check_invite_state_iff g scope invite db = (λ h. ground arith, λ h. ground arith)

check_redeem_proof-ok :
    (g : Library) (c : RedeemCall) (invite : ExactInvite)
    → check_redeem_proof g c invite ≡ ok tt
    → (k : Bytes) × (public_from_string g c.recipient_public ≡ ok k)
      × (c.server_challenge ≢ [])
      × (verify_proof g k c.challenge_proof redeem_proof_purpose
            (invite.jti ∷ invite.audience_pipe_id ∷ c.server_challenge ∷ [])
          ≡ true)
unfolding check_redeem_proof
check_redeem_proof-ok g c invite h = ground arith

redeem_checks-steps :
    (g : Library) (c : RedeemCall) (db : Db) (invite : ExactInvite) (auth : Authority)
    → redeem_checks g c db ≡ ok (invite, auth)
    → (scope : Bytes) × (c.adapter ≡ some scope)
      × (decode_invite g c.encoded_invite ≡ ok invite)
      × (load g c.loader ≡ ok auth)
      × (verify_invite g invite c.now c.wall invite.audience_pipe_id ≡ ok tt)
      × (invite.one_time ≡ true)
      × (check_redeem_proof g c invite ≡ ok tt)
      × (check_invite_state g scope invite db ≡ ok tt)
unfolding redeem_checks
redeem_checks-steps g c db invite auth h = ground arith

redeem_checks-bound :
    (g : Library) (c : RedeemCall) (db : Db) (invite : ExactInvite) (auth : Authority)
    → redeem_checks g c db ≡ ok (invite, auth)
    → (b : OwnerBinding) × (check_invite_binding g invite ≡ ok b)
unfolding redeem_checks
redeem_checks-bound g c db invite auth h = elim (Result-cases (check_invite_binding g invite)) [
  | inl found ↦ found
  | inr (e, lost) ↦ absurd (ground arith)
]

-- The tables of a committed redemption: as they were, where the invite was redeemed by the same client
-- before; or with a redemption under the fresh session, and with the relationship at the invite's epoch.
abbrev pub Committed : Library → RedeemCall → ExactInvite → Bytes → Db → Db → Type 0
Committed g c invite session_id db db' =
    (random_id g (lit "ses_") c.session_random ≡ ok session_id)
    × (((db' ≡ db)
          × ((r : Redemption) × (find_redemption invite.jti invite.audience_pipe_id db ≡ some r)
              × (r.client_public ≡ c.recipient_public)))
        ⊎ (find_redemption invite.jti invite.audience_pipe_id db ≡ none)
          × (db' ≡ record db {
            redemptions =
                new_redemption invite.jti invite.audience_pipe_id session_id c.recipient_public
                  c.now exact
                ∷ db.redemptions;
            relationships =
                upsert_row relationship_key keep_accepted_at
                  (new_relationship invite.audience_pipe_id c.recipient_public invite.jti
                    invite.access_epoch c.now)
                  db.relationships;
          }))

redeem_mint-IsMinted :
    (g : Library) (c : RedeemCall) (invite : ExactInvite) (auth : Authority) (l : AccessLease)
    → redeem_mint g c invite auth ≡ ok l
    → IsMinted g auth.private c.recipient_public invite.audience_pipe_id c.now
        (bootstrap_lifetime c.lease_lifetime invite.expires_at c.now)
        invite.access_epoch
        l
unfolding redeem_mint
redeem_mint-IsMinted g c invite auth l h =
    new_access_lease-IsMinted g auth.private c.recipient_public invite.audience_pipe_id c.now
      (bootstrap_lifetime c.lease_lifetime invite.expires_at c.now) invite.access_epoch
      c.lease_random l (ground arith)

-- A redemption that succeeds was made with a valid, unrevoked invite of the pipe's current epoch, whose
-- issuer the pipe's owner has bound, by a client that proved possession of its key; it was committed by one
-- call of the store for that invite and client, which wrote the redemption and the relationship, or nothing
-- if this client had redeemed the invite before; and the lease is signed under the loaded authority's key, for
-- that client and the invite's pipe, at the invite's epoch, from the call's time for the capped lifetime.
pub redeem_exact_invite-ok :
    (g : Library) (c : RedeemCall) (db db' : Db) (l : AccessLease)
    → redeem_exact_invite g c db ≡ (ok l, db')
    → (scope : Bytes) × (invite : ExactInvite) × (auth : Authority) × (session_id : Bytes)
      × IsRedeemable g c db scope invite auth
      × (redeem_invite_and_accept invite.jti invite.audience_pipe_id session_id c.recipient_public
            invite.access_epoch c.now c.alive db
          ≡ ok (true, db'))
      × Committed g c invite session_id db db'
      × IsMinted g auth.private c.recipient_public invite.audience_pipe_id c.now
          (bootstrap_lifetime c.lease_lifetime invite.expires_at c.now)
          invite.access_epoch
          l
redeem_exact_invite-ok g c db db' l h =
    let (invite, auth, checked, written, minted) = redeem-ok g c db db' l h in
    let (scope, wired, coded, loaded, verified, one_time, proved, state) =
      redeem_checks-steps g c db invite auth checked in
    let (b, embedded) = redeem_checks-bound g c db invite auth checked in
    let (owner, bound) = check_invite_binding-IsBound g invite b embedded in
    let (up, kept, current) = (check_invite_state_iff g scope invite db).0 state in
    let (session_id, drawn, committed) = redeem_write-ok g c invite db db' written in
    (
      scope,
      invite,
      auth,
      session_id,
      record {
        wired = wired;
        coded = coded;
        bound = (b, owner, bound);
        loaded = load-IsLoaded g c.loader auth loaded;
        valid = verify_invite-IsValidInvite g invite c.now c.wall invite.audience_pipe_id verified;
        verified = verified;
        one_time = one_time;
        possessed = check_redeem_proof-ok g c invite proved;
        answers = up;
        not_revoked = kept;
        current = current;
      },
      committed,
      (
        drawn,
        (redeem_invite_and_accept-ok invite.jti invite.audience_pipe_id session_id
            c.recipient_public invite.access_epoch c.now c.alive true db db' committed).2,
      ),
      redeem_mint-IsMinted g c invite auth l minted,
    )
