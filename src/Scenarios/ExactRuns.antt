-- ===== src/Scenarios/ExactRuns.antt =====
-- The theorems of the exact access family at the runs of one invite.
use tubo.Base.{
  ℕ, ◌≤◌, ◌≡◌, refl, ◌≢◌, ◌↔◌, ◌⊎◌, true, none, arith, Bytes, same, ok, err, same_key, find_row,
}
use tubo.Store.Exact.Relationships.{find_relationship-IsBackedBy, IsBackedBy}
use tubo.Exact.Redeem.Limits.{redeem_exact_invite-expires, redeem_exact_invite_once}
use tubo.Scenarios.Exchange.{
  dropped, nonce, authority_private, first_relationship, no_rows, opening, session_id,
  authority_public, authorizer, invite, minted, minted_jti, moved_on_db, redemption, renewal,
  first_lease, opener, plain, redeemed_db, second_lease, server, client_public, moved_db, pipe_id,
}
use tubo.Scenarios.Runs.{
  dropped-err, new_access_lease-minted, decode-opening, retry-ok, accept-redeemed,
  decode-redemption, renewal-ok, revoke-moved, revoke-moved_on, redemption-ok,
}
use tubo.Exact.Authorize.Rules.{authorize_open_iff, IsAuthorized, granted}
use tubo.Credential.Encoding.{pipe_id_from_owner}
use tubo.Exact.Redeem.Effects.{
  redeem_exact_invite-err, redeem_exact_invite-ok, Committed, IsRedeemable,
}
use tubo.Credential.{AccessLease, ExactInvite}
use tubo.Exact.{persistence_failed, Authority}
use tubo.Exact.Authorize.Fence.{authorize_open-revoked_epoch}
use tubo.Scenarios.Toy.{toy-IsLibrary}
use tubo.Store.Exact.Tables.{accepts, revokes, here, next, epoch_of}
use tubo.Credential.Lease.Mint.{IsMinted, verify_lease-new_access_lease}
use tubo.Credential.Lease.Verify.{verify_lease_iff, IsValidLease}
use tubo.Exact.Redeem.{bootstrap_lifetime, redeem_mint, redeem_write, redeem_checks}
use tubo.Exact.Renew.Fence.{renew_accepted_access-revoked_epoch}
use tubo.Exact.Renew.Rules.{renew_accepted_access-IsRenewed, IsRenewed}
use tubo.Store.Exact.{redeem_invite_and_accept, pipe_access}
use tubo.Credential.Lease.{verify_lease}
use tubo.Exact.Authorize.{authorize_open}

verify_lease_iff_example :
    (verify_lease opener first_lease authority_public client_public pipe_id 1200 0 ≡ ok tt)
    ↔ IsValidLease opener first_lease authority_public client_public pipe_id 1200
verify_lease_iff_example =
    verify_lease_iff opener first_lease authority_public client_public pipe_id 1200 0

-- At 970, which only the skew admits: the lease is of 1000.
verify_lease-new_access_lease_example :
    verify_lease plain minted (plain.ed_public authority_private) client_public pipe_id 970 0
    ≡ ok tt
verify_lease-new_access_lease_example =
    verify_lease-new_access_lease plain (toy-IsLibrary none none none) authority_private
      client_public pipe_id 1000 500 2 nonce minted 970 0 refl (omega arith) new_access_lease-minted
      (omega arith) (omega arith) (omega arith)

authorize_open_iff_example :
    (authorize_open opener authorizer opening 0 redeemed_db ≡ ok (granted opening first_lease)) ↔ (
      (lease : AccessLease) × IsAuthorized opener authorizer opening 1200 redeemed_db lease
      × (granted opening first_lease ≡ granted opening lease))
authorize_open_iff_example =
    authorize_open_iff opener authorizer opening 0 redeemed_db (granted opening first_lease)

authorize_open-revoked_epoch_example :
    authorize_open opener authorizer opening 0 moved_on_db ≢ ok (granted opening first_lease)
authorize_open-revoked_epoch_example =
    authorize_open-revoked_epoch opener authorizer opening 0 3 1300 redeemed_db moved_on_db
      moved_on_db first_lease (granted opening first_lease) revoke-moved_on here decode-opening
      (omega arith)

redeem_exact_invite_once_example : (client_public ≡ client_public) × (redeemed_db ≡ redeemed_db)
redeem_exact_invite_once_example =
    redeem_exact_invite_once server redemption redemption moved_db redeemed_db redeemed_db
      redeemed_db first_lease first_lease refl redemption-ok here retry-ok

redeem_exact_invite-expires_example : first_lease.expires_at ≤ invite.expires_at
redeem_exact_invite-expires_example =
    redeem_exact_invite-expires server redemption moved_db redeemed_db first_lease invite
      (omega arith) decode-redemption redemption-ok

redeem_exact_invite-ok_example :
    (scope : Bytes) × (invite' : ExactInvite) × (auth : Authority) × (session : Bytes)
    × IsRedeemable server redemption moved_db scope invite' auth
    × (redeem_invite_and_accept invite'.jti invite'.audience_pipe_id session client_public
          invite'.access_epoch 1100 true moved_db
        ≡ ok (true, redeemed_db))
    × Committed server redemption invite' session moved_db redeemed_db
    × IsMinted server auth.private client_public invite'.audience_pipe_id 1100
        (bootstrap_lifetime (redemption.lease_lifetime) invite'.expires_at 1100)
        invite'.access_epoch
        first_lease
redeem_exact_invite-ok_example =
    redeem_exact_invite-ok server redemption moved_db redeemed_db first_lease redemption-ok

redeem_exact_invite-err_example :
    (moved_db ≡ moved_db)
    ⊎ ((invite' : ExactInvite) × (auth : Authority) × (redeem_checks server dropped moved_db
          ≡ ok (invite', auth))
        × (redeem_write server dropped invite' moved_db ≡ ok moved_db)
        × (redeem_mint server dropped invite' auth ≡ err persistence_failed))
redeem_exact_invite-err_example =
    redeem_exact_invite-err server dropped moved_db moved_db persistence_failed dropped-err

renew_accepted_access-IsRenewed_example :
    (scope : Bytes) × (auth : Authority) × (epoch : ℕ) × IsRenewed server renewal redeemed_db scope
      auth epoch second_lease
renew_accepted_access-IsRenewed_example =
    renew_accepted_access-IsRenewed server renewal redeemed_db second_lease renewal-ok

-- The redemption and the renewal come after the revocation that made the epoch 2.
renew_accepted_access-revoked_epoch_example :
    (2 ≤ second_lease.access_epoch)
    × (second_lease.access_epoch ≡ epoch_of pipe_id pipe_access pipe_id redeemed_db)
renew_accepted_access-revoked_epoch_example =
    renew_accepted_access-revoked_epoch server renewal pipe_id 2 900 no_rows moved_db redeemed_db
      second_lease refl revoke-moved
      (next here
        (accepts minted_jti pipe_id session_id client_public 2 1100 true true accept-redeemed))
      renewal-ok

find_relationship-IsBackedBy_example :
    IsBackedBy redeemed_db pipe_id client_public first_relationship
unfolding find_row same_key pipe_id same pipe_id_from_owner
find_relationship-IsBackedBy_example =
    find_relationship-IsBackedBy true pipe_id client_public first_relationship
      (next (next here (revokes pipe_id pipe_access pipe_id 2 900 revoke-moved))
        (accepts minted_jti pipe_id session_id client_public 2 1100 true true accept-redeemed))
      refl
