-- ===== src/Scenarios/Runs.antt =====
-- What the exchanges and revocations of Scenarios/Exchange compute to.
use tubo.Base.{
  ◌≡◌, refl, true, some, same, has_prefix, contains_string, trim_left, trim_space, is_blank, ok,
  err, same_key, find_row, upsert_row,
}
use tubo.Scenarios.Exchange.{
  minted, first_lease, nonce, second_lease, authority_private, dropped, moved_on_db, opening,
  redemption, renewal, session_id, client_public, minted_jti, opener, plain, redeemed_db, server,
  invite, moved_db, binding, no_rows, pipe_id,
}
use tubo.Store.Exact.{
  accepted_relationship, revoke, redeem_invite_and_accept, revocation_epoch, is_revoked,
  pipe_access,
}
use tubo.Exact.{persistence_failed, load, from_binding}
use tubo.Credential.Lease.{
  decode_lease, verify_window, new_access_lease, sign_lease, lease_signing_body, lease_signing,
}
use tubo.Exact.Renew.{reissue, check_relationship, check_renewal_authority, renew_accepted_access}
use tubo.Exact.Redeem.{
  redeem_mint, redeem_write, redeem_checks, check_invite_state, check_redeem_proof,
  check_invite_binding, bootstrap_lifetime, redeem_exact_invite,
}
use tubo.Credential.Invite.{
  decode_invite, verify_invite, verify_invite_binding, verify_invite_fields, invite_signing,
  invite_signing_body, sign_invite, new_exact_invite,
}
use tubo.Credential.Strict.{bound_of, scan_members, scan_flat_object, decode_strict_json}
use tubo.Credential.Binding.{
  decode_owner_binding, address_count, encode_owner_binding, verify_owner_binding,
  verify_owner_authority, binding_signing, binding_signing_body, sign_binding, new_owner_binding,
}
use tubo.Credential.Encoding.{
  verify_proof, proof_message, join_nul, sign_proof, random_id, decode_signature,
  public_from_string, decode_canonical, domain_bytes, verify_pipe_owner, pipe_id_from_owner,
}

pub redemption-ok : redeem_exact_invite server redemption moved_db ≡ (ok first_lease, redeemed_db)
unfolding same has_prefix domain_bytes join_nul proof_message sign_proof verify_proof
    decode_canonical public_from_string decode_signature pipe_id_from_owner verify_pipe_owner
    random_id lease_signing lease_signing_body sign_lease new_access_lease binding_signing
    binding_signing_body sign_binding new_owner_binding verify_owner_binding verify_owner_authority
    encode_owner_binding decode_owner_binding decode_strict_json scan_flat_object scan_members
    bound_of address_count invite_signing invite_signing_body sign_invite new_exact_invite
    verify_invite_fields verify_invite_binding verify_invite verify_window decode_invite pipe_id
    binding invite from_binding load bootstrap_lifetime check_invite_binding check_redeem_proof
    check_invite_state redeem_checks redeem_write redeem_mint redeem_exact_invite is_revoked
    revocation_epoch redeem_invite_and_accept find_row same_key upsert_row contains_string
    trim_space trim_left is_blank
redemption-ok = refl

pub dropped-err : redeem_exact_invite server dropped moved_db ≡ (err persistence_failed, moved_db)
unfolding same has_prefix domain_bytes join_nul proof_message sign_proof verify_proof
    decode_canonical public_from_string decode_signature pipe_id_from_owner verify_pipe_owner
    random_id lease_signing lease_signing_body sign_lease new_access_lease binding_signing
    binding_signing_body sign_binding new_owner_binding verify_owner_binding verify_owner_authority
    encode_owner_binding decode_owner_binding decode_strict_json scan_flat_object scan_members
    bound_of address_count invite_signing invite_signing_body sign_invite new_exact_invite
    verify_invite_fields verify_invite_binding verify_invite verify_window decode_invite pipe_id
    binding invite from_binding load bootstrap_lifetime check_invite_binding check_redeem_proof
    check_invite_state redeem_checks redeem_write redeem_mint redeem_exact_invite is_revoked
    revocation_epoch redeem_invite_and_accept find_row same_key upsert_row contains_string
    trim_space trim_left is_blank
dropped-err = refl

pub retry-ok : redeem_exact_invite server redemption redeemed_db ≡ (ok first_lease, redeemed_db)
unfolding same has_prefix domain_bytes join_nul proof_message sign_proof verify_proof
    decode_canonical public_from_string decode_signature pipe_id_from_owner verify_pipe_owner
    random_id lease_signing lease_signing_body sign_lease new_access_lease binding_signing
    binding_signing_body sign_binding new_owner_binding verify_owner_binding verify_owner_authority
    encode_owner_binding decode_owner_binding decode_strict_json scan_flat_object scan_members
    bound_of address_count invite_signing invite_signing_body sign_invite new_exact_invite
    verify_invite_fields verify_invite_binding verify_invite verify_window decode_invite pipe_id
    binding invite from_binding load bootstrap_lifetime check_invite_binding check_redeem_proof
    check_invite_state redeem_checks redeem_write redeem_mint redeem_exact_invite is_revoked
    revocation_epoch redeem_invite_and_accept find_row same_key upsert_row contains_string
    trim_space trim_left is_blank
retry-ok = refl

-- The revocation that made the pipe's epoch 2.
pub revoke-moved : revoke pipe_id pipe_access pipe_id 2 900 no_rows ≡ ok moved_db
unfolding revoke upsert_row find_row is_blank trim_space trim_left pipe_id pipe_id_from_owner
revoke-moved = refl

pub accept-redeemed :
    redeem_invite_and_accept minted_jti pipe_id session_id client_public 2 1100 true moved_db
    ≡ ok (true, redeemed_db)
unfolding same has_prefix domain_bytes join_nul proof_message sign_proof verify_proof
    decode_canonical public_from_string decode_signature pipe_id_from_owner verify_pipe_owner
    random_id lease_signing lease_signing_body sign_lease new_access_lease binding_signing
    binding_signing_body sign_binding new_owner_binding verify_owner_binding verify_owner_authority
    encode_owner_binding decode_owner_binding decode_strict_json scan_flat_object scan_members
    bound_of address_count invite_signing invite_signing_body sign_invite new_exact_invite
    verify_invite_fields verify_invite_binding verify_invite verify_window decode_invite pipe_id
    binding invite from_binding load bootstrap_lifetime check_invite_binding check_redeem_proof
    check_invite_state redeem_checks redeem_write redeem_mint redeem_exact_invite is_revoked
    revocation_epoch redeem_invite_and_accept find_row same_key upsert_row contains_string
    trim_space trim_left is_blank
accept-redeemed = refl

pub renewal-ok : renew_accepted_access server renewal redeemed_db ≡ ok second_lease
unfolding renew_accepted_access check_renewal_authority check_relationship reissue
    accepted_relationship same has_prefix domain_bytes join_nul proof_message sign_proof
    verify_proof decode_canonical public_from_string decode_signature pipe_id_from_owner
    verify_pipe_owner random_id lease_signing lease_signing_body sign_lease new_access_lease
    binding_signing binding_signing_body sign_binding new_owner_binding verify_owner_binding
    verify_owner_authority encode_owner_binding decode_owner_binding decode_strict_json
    scan_flat_object scan_members bound_of address_count invite_signing invite_signing_body
    sign_invite new_exact_invite verify_invite_fields verify_invite_binding verify_invite
    verify_window decode_invite pipe_id binding invite from_binding load bootstrap_lifetime
    check_invite_binding check_redeem_proof check_invite_state redeem_checks redeem_write
    redeem_mint redeem_exact_invite is_revoked revocation_epoch redeem_invite_and_accept find_row
    same_key upsert_row contains_string trim_space trim_left is_blank
renewal-ok = refl

pub revoke-moved_on : revoke pipe_id pipe_access pipe_id 3 1300 redeemed_db ≡ ok moved_on_db
unfolding revoke same has_prefix domain_bytes join_nul proof_message sign_proof verify_proof
    decode_canonical public_from_string decode_signature pipe_id_from_owner verify_pipe_owner
    random_id lease_signing lease_signing_body sign_lease new_access_lease binding_signing
    binding_signing_body sign_binding new_owner_binding verify_owner_binding verify_owner_authority
    encode_owner_binding decode_owner_binding decode_strict_json scan_flat_object scan_members
    bound_of address_count invite_signing invite_signing_body sign_invite new_exact_invite
    verify_invite_fields verify_invite_binding verify_invite verify_window decode_invite pipe_id
    binding invite from_binding load bootstrap_lifetime check_invite_binding check_redeem_proof
    check_invite_state redeem_checks redeem_write redeem_mint redeem_exact_invite is_revoked
    revocation_epoch redeem_invite_and_accept find_row same_key upsert_row contains_string
    trim_space trim_left is_blank
revoke-moved_on = refl

pub decode-opening : decode_lease opener opening.access_lease ≡ ok first_lease
unfolding decode_lease same has_prefix domain_bytes join_nul proof_message sign_proof verify_proof
    decode_canonical public_from_string decode_signature pipe_id_from_owner verify_pipe_owner
    random_id lease_signing lease_signing_body sign_lease new_access_lease binding_signing
    binding_signing_body sign_binding new_owner_binding verify_owner_binding verify_owner_authority
    encode_owner_binding decode_owner_binding decode_strict_json scan_flat_object scan_members
    bound_of address_count invite_signing invite_signing_body sign_invite new_exact_invite
    verify_invite_fields verify_invite_binding verify_invite verify_window decode_invite pipe_id
    binding invite from_binding load bootstrap_lifetime check_invite_binding check_redeem_proof
    check_invite_state redeem_checks redeem_write redeem_mint redeem_exact_invite is_revoked
    revocation_epoch redeem_invite_and_accept find_row same_key upsert_row contains_string
    trim_space trim_left is_blank
decode-opening = refl

pub decode-redemption : decode_invite server redemption.encoded_invite ≡ ok invite
unfolding same has_prefix domain_bytes join_nul proof_message sign_proof verify_proof
    decode_canonical public_from_string decode_signature pipe_id_from_owner verify_pipe_owner
    random_id lease_signing lease_signing_body sign_lease new_access_lease binding_signing
    binding_signing_body sign_binding new_owner_binding verify_owner_binding verify_owner_authority
    encode_owner_binding decode_owner_binding decode_strict_json scan_flat_object scan_members
    bound_of address_count invite_signing invite_signing_body sign_invite new_exact_invite
    verify_invite_fields verify_invite_binding verify_invite verify_window decode_invite pipe_id
    binding invite
decode-redemption = refl

pub new_access_lease-minted :
    new_access_lease plain authority_private client_public pipe_id 1000 500 2 (some nonce)
    ≡ ok minted
unfolding same has_prefix domain_bytes join_nul proof_message sign_proof verify_proof
    decode_canonical public_from_string decode_signature pipe_id_from_owner verify_pipe_owner
    random_id lease_signing lease_signing_body sign_lease new_access_lease binding_signing
    binding_signing_body sign_binding new_owner_binding verify_owner_binding verify_owner_authority
    encode_owner_binding decode_owner_binding decode_strict_json scan_flat_object scan_members
    bound_of address_count invite_signing invite_signing_body sign_invite new_exact_invite
    verify_invite_fields verify_invite_binding verify_invite verify_window decode_invite pipe_id
    binding invite
new_access_lease-minted = refl
