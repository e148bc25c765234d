-- ===== src/Scenarios/ScopedRuns.antt =====
-- Runs of internal/runtime/authority.go in one scope.
use tubo.Base.{
  ◌≤◌, ◌<◌, ◌≡◌, refl, ◌≢◌, inl, true, none, some, [], ◌∷◌, arith, Bytes, lit, same, bytes_le,
  trim_left, trim_space, is_blank, length, All, ok, same_key, find_row, upsert_row, delete_rows,
}
use tubo.Scoped.Server.{
  AuthorityResponse, AuthorityState, read_stored, announced_record, announce, own_public, nothing,
  bounded_strings, AuthorityRequest, authenticate, mint_leases,
}
use tubo.Store.Stamp.{digits, drop_zeros, fraction, text_le}
use tubo.Store.Discovery.{prune_expired_records, record_in_scope}
use tubo.Store.Records.{
  advance_authority_snapshot_tx, valid_scope_text, validate_stored_record, put_record_tx,
  put_authoritative_record, select_rows, insert_by_name, order_by_name, prune_local,
  authority_snapshot,
}
use tubo.Domain.Ref.{cut_slash, name_matches}
use tubo.Scoped.Records.{
  check_grant, record_signing_bytes, check_record, verify_record, parse_record, encode_record,
}
use tubo.Scoped.Announced.{process-announces, IsAnnounced, announce_operation}
use tubo.Scoped.Tokens.{
  check_proof, public_of_text, signing_bytes, check_endpoint, encode_token, check_token, sign_token,
  verify_token, decode_token, new_token,
}
use tubo.Scoped.Operations.{published_record, redeem_share, redeem}
use tubo.Store.Cache.{find_snapshot, find_record, Record}
use tubo.Scoped.Minted.{mint_leases-IsLeaseText, IsLeaseText}
use tubo.Store.Discovery.Counters.{served_generation}
use tubo.Store.Exact.{is_revoked, revocation_epoch, redeem_invite, pipe_access, Db}
use tubo.Scenarios.Team.{
  token_code, team, team_library, asking, before, announced, draws, readings, handler, membership,
  share, refresh_lease, access_lease,
}
use tubo.Store.Exact.Tables.{epoch_of, here}
use tubo.Scoped.Permission.{process-IsAuthentic, permitted, IsAuthentic}
use tubo.Scoped.Process.{
  AuthoritySnapshotRequest, discoverable_payloads, announcing, snapshot_response,
  authenticate_snapshot, dispatch, AuthoritySnapshotResponse, process, process_snapshot,
}
use tubo.Scoped.Refresh.{exchange-fenced, refresh_operation}
use tubo.Credential.Encoding.{join_nul, random_id, proof_message, pipe_id_from_owner, sign_proof}
use tubo.Scenarios.Toy.{toy-IsLibrary}
use tubo.Scoped.Listed.{process_snapshot-All, IsDiscoverable}
use tubo.Scoped.Once.{redeem_once, redeem_operation}
use tubo.Domain.Model.{validate_scope}
use tubo.Scoped.{scope_text, Token, PipeRecord}
use tubo.Scenarios.Exchange.{plain, pipe_id, client_private, client_public, nonce, ok_or}

abbrev announcing_request : AuthorityRequest
announcing_request = asking announce_operation 1 (lit "m") (9 ∷ [])

authenticate-announcing : authenticate team_library handler announcing_request 2000 ≡ ok membership
unfolding authenticate asking bounded_strings pipe_id pipe_id_from_owner decode_token same
    verify_token check_token check_endpoint validate_scope name_matches signing_bytes public_of_text
    check_proof sign_proof proof_message join_nul
authenticate-announcing = refl

process-announcing :
    process team_library handler announcing_request draws readings before ≡ (ok nothing, announced)
unfolding process dispatch announcing announce announced_record authenticate asking bounded_strings
    pipe_id pipe_id_from_owner decode_token same verify_token check_token check_endpoint
    validate_scope name_matches signing_bytes public_of_text check_proof sign_proof proof_message
    join_nul parse_record verify_record check_record record_signing_bytes encode_record check_grant
    find_row upsert_row delete_rows same_key put_authoritative_record put_record_tx
    validate_stored_record valid_scope_text cut_slash trim_space trim_left is_blank
    advance_authority_snapshot_tx record_in_scope prune_expired_records text_le fraction drop_zeros
    digits bytes_le
process-announcing = refl

process-IsAuthentic_example :
    (invite : Token) × IsAuthentic team_library handler announcing_request 2000 invite
    × (permitted announce_operation invite ≡ true)
unfolding asking
process-IsAuthentic_example =
    process-IsAuthentic team_library handler announcing_request draws readings before announced
      nothing process-announcing

process-announces_example :
    (r : PipeRecord) × IsAnnounced team_library handler announcing_request readings membership r
    × ((row : Record) × (find_record (scope_text team) pipe_id announced.cache ≡ some row)
        × (row.sequence ≡ r.sequence)
        × (encode_record team_library r ≡ ok row.payload))
    × (served_generation (find_snapshot (scope_text team) before.cache)
        < served_generation (find_snapshot (scope_text team) announced.cache))
    × (announced.db ≡ before.db)
unfolding asking same
process-announces_example =
    process-announces team_library handler announcing_request readings membership draws before
      announced nothing process-announcing refl authenticate-announcing

-- The invite is redeemed once, and once more by the same client.
abbrev redeeming_request : AuthorityRequest
redeeming_request = asking redeem_operation 2 (lit "s") []

unfoldable redeemed : AuthorityState
unfolding process dispatch redeem redeem_share redeem_invite is_revoked published_record read_stored
    mint_leases new_token random_id sign_token encode_token revocation_epoch authenticate asking
    bounded_strings pipe_id pipe_id_from_owner decode_token same verify_token check_token
    check_endpoint validate_scope name_matches signing_bytes public_of_text check_proof sign_proof
    proof_message join_nul parse_record verify_record check_record record_signing_bytes
    encode_record check_grant find_row upsert_row delete_rows same_key put_authoritative_record
    put_record_tx validate_stored_record valid_scope_text cut_slash trim_space trim_left is_blank
    advance_authority_snapshot_tx record_in_scope prune_expired_records text_le fraction drop_zeros
    digits bytes_le
redeemed = (process team_library handler redeeming_request draws readings announced).1

unfoldable redeemed_answer : AuthorityResponse
unfolding process dispatch redeem redeem_share redeem_invite is_revoked published_record read_stored
    mint_leases new_token random_id sign_token encode_token revocation_epoch authenticate asking
    bounded_strings pipe_id pipe_id_from_owner decode_token same verify_token check_token
    check_endpoint validate_scope name_matches signing_bytes public_of_text check_proof sign_proof
    proof_message join_nul parse_record verify_record check_record record_signing_bytes
    encode_record check_grant find_row upsert_row delete_rows same_key put_authoritative_record
    put_record_tx validate_stored_record valid_scope_text cut_slash trim_space trim_left is_blank
    advance_authority_snapshot_tx record_in_scope prune_expired_records text_le fraction drop_zeros
    digits bytes_le
redeemed_answer =
    ok_or nothing (process team_library handler redeeming_request draws readings announced).0

authenticate-redeeming : authenticate team_library handler redeeming_request 2000 ≡ ok share
unfolding authenticate asking bounded_strings pipe_id pipe_id_from_owner decode_token same
    verify_token check_token check_endpoint validate_scope name_matches signing_bytes public_of_text
    check_proof sign_proof proof_message join_nul
authenticate-redeeming = refl

process-redeeming :
    process team_library handler redeeming_request draws readings announced
    ≡ (ok redeemed_answer, redeemed)
unfolding redeemed redeemed_answer process dispatch redeem redeem_share redeem_invite is_revoked
    published_record read_stored mint_leases new_token random_id sign_token encode_token
    revocation_epoch authenticate asking bounded_strings pipe_id pipe_id_from_owner decode_token
    same verify_token check_token check_endpoint validate_scope name_matches signing_bytes
    public_of_text check_proof sign_proof proof_message join_nul parse_record verify_record
    check_record record_signing_bytes encode_record check_grant find_row upsert_row delete_rows
    same_key put_authoritative_record put_record_tx validate_stored_record valid_scope_text
    cut_slash trim_space trim_left is_blank advance_authority_snapshot_tx record_in_scope
    prune_expired_records text_le fraction drop_zeros digits bytes_le
process-redeeming = refl

process-redeeming_again :
    process team_library handler redeeming_request draws readings redeemed
    ≡ (ok redeemed_answer, redeemed)
unfolding redeemed redeemed_answer process dispatch redeem redeem_share redeem_invite is_revoked
    published_record read_stored mint_leases new_token random_id sign_token encode_token
    revocation_epoch authenticate asking bounded_strings pipe_id pipe_id_from_owner decode_token
    same verify_token check_token check_endpoint validate_scope name_matches signing_bytes
    public_of_text check_proof sign_proof proof_message join_nul parse_record verify_record
    check_record record_signing_bytes encode_record check_grant find_row upsert_row delete_rows
    same_key put_authoritative_record put_record_tx validate_stored_record valid_scope_text
    cut_slash trim_space trim_left is_blank advance_authority_snapshot_tx record_in_scope
    prune_expired_records text_le fraction drop_zeros digits bytes_le
process-redeeming_again = refl

redeem_once_example : client_public ≡ client_public
unfolding asking same
redeem_once_example =
    redeem_once team_library handler redeeming_request redeeming_request draws draws readings
      readings announced redeemed redeemed redeemed redeemed_answer redeemed_answer share share
      process-redeeming process-redeeming_again here refl refl authenticate-redeeming
      authenticate-redeeming refl refl

-- The pipe's epoch is 3, the leases are of 2.
abbrev fenced_db : Db
fenced_db = record before.db {
  revocations =
      record {
        scope = scope_text team;
        subject_type = pipe_access;
        subject_jti = pipe_id;
        revoked_at = 1500;
        epoch = 3;
      }
      ∷ [];
}

abbrev refreshing_request : AuthorityRequest
refreshing_request = asking refresh_operation 3 (lit "r") []

authenticate-refreshing :
    authenticate team_library handler refreshing_request 2000 ≡ ok refresh_lease
unfolding authenticate asking bounded_strings pipe_id pipe_id_from_owner decode_token same
    verify_token check_token check_endpoint validate_scope name_matches signing_bytes public_of_text
    check_proof sign_proof proof_message join_nul
authenticate-refreshing = refl

decode-access_lease : decode_token team_library refreshing_request.access_lease ≡ ok access_lease
unfolding asking decode_token same pipe_id pipe_id_from_owner
decode-access_lease = refl

exchange-fenced_example :
    process team_library handler refreshing_request draws readings
      (record before { db = fenced_db })
    ≢ (ok nothing, before)
unfolding asking same find_row same_key pipe_id pipe_id_from_owner
exchange-fenced_example =
    exchange-fenced team_library handler refreshing_request draws readings refresh_lease fenced_db
      (record before { db = fenced_db }) before nothing access_lease here authenticate-refreshing
      decode-access_lease refl (inl (omega arith))

-- The two leases that are minted at 2000, five minutes and a day later.
unfoldable lease_texts : Bytes × Bytes
unfolding mint_leases new_token random_id sign_token encode_token revocation_epoch signing_bytes
    find_row same_key same pipe_id pipe_id_from_owner
lease_texts =
    ok_or ([], []) (mint_leases team_library handler client_public pipe_id draws readings before.db)

mint_leases-texts :
    mint_leases team_library handler client_public pipe_id draws readings before.db
    ≡ ok (lease_texts.0, lease_texts.1)
unfolding lease_texts mint_leases new_token random_id sign_token encode_token revocation_epoch
    signing_bytes find_row same_key same pipe_id pipe_id_from_owner
mint_leases-texts = refl

team_valid : validate_scope team ≡ ok tt
unfolding validate_scope name_matches
team_valid = refl

client_fits : (0 < length client_public) × (length client_public ≤ 8192)
client_fits = (omega arith, omega arith)

pipe_fits : (0 < length pipe_id) × (length pipe_id ≤ 8192)
unfolding pipe_id pipe_id_from_owner
pipe_fits = (omega arith, omega arith)

mint_leases-IsLeaseText_example :
    IsLeaseText team_library
      (toy-IsLibrary none none none)
      (own_public team_library handler)
      (lit "connect.access")
      client_public
      pipe_id
      (epoch_of (scope_text team) pipe_access pipe_id before.db)
      300_000_000_000
      lease_texts.0
    × IsLeaseText team_library
        (toy-IsLibrary none none none)
        (own_public team_library handler)
        (lit "connect.refresh")
        client_public
        pipe_id
        (epoch_of (scope_text team) pipe_access pipe_id before.db)
        86_400_000_000_000
        lease_texts.1
mint_leases-IsLeaseText_example =
    mint_leases-IsLeaseText team_library (toy-IsLibrary none none none) handler client_public
      pipe_id draws readings before.db team_valid client_fits pipe_fits nonce nonce lease_texts.0
      lease_texts.1 300_000_000_000 86_400_000_000_000 refl refl refl refl
      (omega arith, omega arith, omega arith) (omega arith, omega arith, omega arith)
      mint_leases-texts

-- A snapshot request under the membership.
unfoldable snapshot_request : AuthoritySnapshotRequest
unfolding sign_proof proof_message join_nul
snapshot_request = record {
  token = token_code 1;
  client_public = client_public;
  nonce = lit "x";
  proof =
      sign_proof plain client_private (lit "tubo-authority-v2")
        (lit "records.list" ∷ [] ∷ lit "x" ∷ lit "m" ∷ []);
}

abbrev snapshot_answer : AuthoritySnapshotResponse
snapshot_answer = record { generation = 1; high_water = 1; records = (9 ∷ []) ∷ [] }

process_snapshot-taken :
    process_snapshot team_library handler snapshot_request readings announced
    ≡ (ok snapshot_answer, announced)
unfolding snapshot_request process_snapshot authenticate_snapshot snapshot_response
    discoverable_payloads authority_snapshot prune_local order_by_name insert_by_name select_rows
    read_stored bounded_strings pipe_id pipe_id_from_owner decode_token same verify_token
    check_token check_endpoint validate_scope name_matches signing_bytes public_of_text check_proof
    sign_proof proof_message join_nul parse_record verify_record check_record record_signing_bytes
    encode_record check_grant find_row upsert_row delete_rows same_key put_authoritative_record
    put_record_tx validate_stored_record valid_scope_text cut_slash trim_space trim_left is_blank
    advance_authority_snapshot_tx record_in_scope prune_expired_records text_le fraction drop_zeros
    digits bytes_le
process_snapshot-taken = refl

process_snapshot-All_example :
    All (IsDiscoverable team_library handler) snapshot_answer.records × (0 < 1) × (0 < 1)
process_snapshot-All_example =
    process_snapshot-All team_library handler snapshot_request readings announced announced
      snapshot_answer process_snapshot-taken
