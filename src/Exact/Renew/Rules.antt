-- ===== src/Exact/Renew/Rules.antt =====
-- What internal/exactauthority/renew.go establishes before it mints.
use tubo.Base.{
  ℕ, ◌≤◌, length, ◌≡◌, ◌≢◌, inl, inr, true, ◌||◌, none, some, [], ◌∷◌, arith, Bytes, lit, ltb, ◌==◌,
  if◌then◌else◌, ok, Result-cases,
}
use tubo.Credential.Lease.{new_access_lease}
use tubo.Credential.{
  renew_proof_purpose, AccessLease, Library, OwnerBinding, max_ttl, max_pipe_id_len,
}
use tubo.Credential.Encoding.{verify_proof, public_from_string, public_string}
use tubo.Store.Exact.{
  pipe_access, find_revocation, accepted_relationship, Db, revocation_epoch, is_revoked,
}
use tubo.Store.Exact.Tables.{epoch_of}
use tubo.Exact.Renew.{
  check_renewal_authority, RenewCall, reissue, check_relationship, renew_accepted_access,
}
use tubo.Exact.{Authority}
use tubo.Exact.Bound.{IsLoaded, check_renewal_authority-IsBound}
use tubo.Credential.Binding.Verify.{IsBound}
use tubo.Credential.Lease.Mint.{IsMinted, new_access_lease-IsMinted}

relationship_facts :
    (g : Library) (scope : Bytes) (c : RenewCall) (db : Db) (e : ℕ) (jti : Bytes) (e' : ℕ)
    → accepted_relationship c.pipe_id c.recipient_public db ≡ ok (some (jti, e'))
    → check_relationship g scope c db ≡ ok e
    → (e' ≡ e)
      × (db.available ≡ true)
      × (find_revocation scope (lit "exact.invite") jti db ≡ none)
      × (epoch_of scope pipe_access c.pipe_id db ≡ e)
unfolding check_relationship is_revoked revocation_epoch
relationship_facts g scope c db e jti e' answered h = ground arith

check_relationship-ok :
    (g : Library) (scope : Bytes) (c : RenewCall) (db : Db) (e : ℕ)
    → check_relationship g scope c db ≡ ok e
    → (jti : Bytes) × (accepted_relationship c.pipe_id c.recipient_public db ≡ ok (some (jti, e)))
      × (db.available ≡ true)
      × (find_revocation scope (lit "exact.invite") jti db ≡ none)
      × (epoch_of scope pipe_access c.pipe_id db ≡ e)
unfolding check_relationship
check_relationship-ok g scope c db e h =
    elim (Result-cases (accepted_relationship c.pipe_id c.recipient_public db)) [
      | inr (x, failed) ↦ absurd (ground arith)
      | inl (none, answered) ↦ absurd (ground arith)
      | inl (some (jti, e'), answered) ↦
          let (same_epoch, up, kept, current) =
            relationship_facts g scope c db e jti e' answered h in
          (jti, ground (arith, answered, same_epoch), up, kept, current)
    ]

-- The lifetime of a reissued lease.
abbrev pub capped : ℕ → ℕ
capped lifetime = if lifetime == 0 || ltb max_ttl lifetime then max_ttl else lifetime

-- What a renewal that succeeds has established, in the order of the checks.
pub record IsRenewed (g : Library) (c : RenewCall) (db : Db) (scope : Bytes) (auth : Authority)
    (epoch : ℕ) (l : AccessLease) : Type 0 where
  pub wired : c.adapter ≡ some scope
  pub named : (c.pipe_id ≢ []) × (length c.pipe_id ≤ max_pipe_id_len)
  pub bound :
      (b : OwnerBinding) × (owner : Bytes) × IsBound g c.owner_binding c.pipe_id
        (public_string g (g.ed_public auth.private))
        b
        owner
  pub loaded : IsLoaded g c.loader auth
  pub accepted :
      (jti : Bytes) × (accepted_relationship c.pipe_id c.recipient_public db
        ≡ ok (some (jti, epoch)))
      × (db.available ≡ true)
      × (find_revocation scope (lit "exact.invite") jti db ≡ none)
      × (epoch_of scope pipe_access c.pipe_id db ≡ epoch)
  pub possessed :
      (k : Bytes) × (public_from_string g c.recipient_public ≡ ok k)
      × (c.server_challenge ≢ [])
      × (verify_proof g k c.challenge_proof renew_proof_purpose
            (c.pipe_id ∷ c.server_challenge ∷ [])
          ≡ true)
  pub minted :
      IsMinted g auth.private c.recipient_public c.pipe_id c.now (capped c.lease_lifetime) epoch l

renew-steps :
    (g : Library) (c : RenewCall) (db : Db) (l : AccessLease)
    → renew_accepted_access g c db ≡ ok l
    → (scope : Bytes) × (c.adapter ≡ some scope)
      × ((c.pipe_id ≢ []) × (length c.pipe_id ≤ max_pipe_id_len))
      × ((auth : Authority) × (check_renewal_authority g c ≡ ok auth)
          × ((epoch : ℕ) × (check_relationship g scope c db ≡ ok epoch)
              × ((k : Bytes) × (public_from_string g c.recipient_public ≡ ok k)
                  × (c.server_challenge ≢ [])
                  × (verify_proof g k c.challenge_proof renew_proof_purpose
                        (c.pipe_id ∷ c.server_challenge ∷ [])
                      ≡ true))
              × (new_access_lease g auth.private c.recipient_public c.pipe_id c.now
                    (capped c.lease_lifetime)
                    epoch
                    c.lease_random
                  ≡ ok l)))
unfolding renew_accepted_access reissue
renew-steps g c db l h = ground arith

-- A renewal succeeds only for a recipient with an accepted relationship to the pipe, whose invite is
-- not revoked and whose epoch is the pipe's current one, who proves possession of the accepted key
-- over a fresh challenge; the pipe's owner has bound the loaded authority's key to the pipe; and the lease is
-- signed under that key, for that recipient and pipe, at that epoch, from the call's time for the capped
-- lifetime.
pub renew_accepted_access-IsRenewed :
    (g : Library) (c : RenewCall) (db : Db) (l : AccessLease)
    → renew_accepted_access g c db ≡ ok l
    → (scope : Bytes) × (auth : Authority) × (epoch : ℕ) × IsRenewed g c db scope auth epoch l
renew_accepted_access-IsRenewed g c db l h =
    let (scope, wired, named, rest) = renew-steps g c db l h in
    let (auth, authority, rest') = rest in
    let (epoch, relation, possessed, minted) = rest' in
    let (loaded, bound) = check_renewal_authority-IsBound g c auth authority in
    (
      scope,
      auth,
      epoch,
      record {
        wired = wired;
        named = named;
        bound = bound;
        loaded = loaded;
        accepted = check_relationship-ok g scope c db epoch relation;
        possessed = possessed;
        minted =
            new_access_lease-IsMinted g auth.private c.recipient_public c.pipe_id c.now
              (capped c.lease_lifetime) epoch c.lease_random l minted;
      },
    )
