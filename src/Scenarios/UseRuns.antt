-- ===== src/Scenarios/UseRuns.antt =====
-- The theorems on the use cases of a shop's owner and its client.
use tubo.Base.{
  is_blank, trim_space, trim_left, has_prefix, contains_string, lit, ◌⊎◌, ap, sym, ◌∙◌, ◌+◌, Result,
  err, ℕ, ◌≡◌, refl, true, none, some, [], ◌∷◌, arith, Bytes, ok, same, find_row, same_key,
  upsert_row,
}
use tubo.UseCase.Connect.Ready.{Ready}
use tubo.UseCase.Accept.Once.{accept_exact_invite-done, AcceptedOnce}
use tubo.UseCase.Accept.{
  AcceptExactInviteResult, accept_exact_invite, cache_quietly, cache_lease, renew_remotely,
  keep_acceptance, redeem_remotely, redeem_and_keep, acquire_carrier, AcceptedInvite,
  accept_verified,
}
use tubo.Scenarios.Toy.{toy-IsLibrary}
use tubo.UseCase.Share.Owned.{share_exact-verifies, IsOwned}
use tubo.UseCase.{
  default_invite_ttl, UseError, owner_key, recipient_ref_for, before_comma, redemption_address,
  acquired, World, pipe_unreachable, key_failed,
}
use tubo.Credential.{ExactInvite, OwnerBinding}
use tubo.UseCase.Share.{
  mint_share, key_path, provision_authority, current_epoch, redemption_locator, owned_pipe,
  shared_authority, ShareExactResult, share_exact,
}
use tubo.Exact.{from_binding, provision, valid_pipe_id_component, Authority}
use tubo.Scenarios.Exchange.{
  no_binding, nonce, ok_or, plain, client_public, pipe_id, second_lease, authority_public,
}
use tubo.Domain.Model.{
  PipeSpec, RemotePipeBinding, validate_scope, validate_pipe, validate_ingress, validate_target,
  validate_service, validate_remote,
}
use tubo.UseCase.Connect.Planned.{FromInput, IsPlan}
use tubo.UseCase.Checks.{
  Plan, exact_connect_conflict, reuse_reference, local_pipe, verify_issued, read_invite,
  check_connect_input, plan_local, plan_connect, accepted_binding, provision_recipient,
}
use tubo.Credential.Invite.{
  encode_invite, decode_invite, verify_invite, verify_invite_binding, verify_invite_fields,
  invite_signing, invite_signing_body, sign_invite, new_exact_invite,
}
use tubo.UseCase.Acquire.{
  access_of, renewed_access, renew_access, usable_lease, cached_access, AcceptedPipeAccess,
  acquire_accepted_pipe_access,
}
use tubo.Store.Connections.{
  find_binding, put_access_lease_cache, put_remote_pipe_binding, get_access_lease_cache,
  get_remote_pipe_binding,
}
use tubo.Credential.Lease.{
  verify_window, lease_signing_body, lease_signing, decode_lease, encode_lease,
  verify_lease_signature, verify_bound_to, verify_lease_fields, verify_lease,
}
use tubo.UseCase.Attach.{
  define_pipe, attached_pipe, define_or_preserve, attach_pipe, AttachResult, attach,
}
use tubo.Store.Resources.{set_grant, put_pipe, put_service, find_pipe_id, pipe}
use tubo.Credential.Encoding.{
  random_id, decode_signature, public_from_string, decode_canonical, domain_bytes,
  verify_pipe_owner, pipe_id_from_owner,
}
use tubo.Credential.Binding.{
  verify_owner_authority, verify_owner_binding, decode_owner_binding, encode_owner_binding,
  sign_binding, binding_signing, binding_signing_body, address_count, new_owner_binding,
}
use tubo.Credential.Strict.{bound_of, scan_members, scan_flat_object, decode_strict_json}
use tubo.UseCase.Target.{before_colon, kind_of_target, service_spec_from_target}
use tubo.Domain.Ref.{require_kind, to_string, name_matches, validate_ref, new_ref}
use tubo.UseCase.Connect.{
  store_local, establish, connect_planned, ConnectExactResult, connect_exact,
}
use tubo.Scenarios.Shop.{
  shop_binding, shop_library, shop_invite, shop_ref, visit, client_pipe_id, specs, owner_cases,
  sharing, keyless, client_cases, unreachable, at, new_world, web_attached, web_only, visited,
  accepted, attaching, connecting,
}
use tubo.UseCase.Attach.Durable.{attach-Attached, attach-failed, Attached, AtMostService}
use tubo.UseCase.Acquire.Verified.{acquire_accepted_pipe_access-done, ValidFor}
use tubo.UseCase.Acquire.Quiet.{ending}
use tubo.UseCase.Connect.Joined.{connect_exact-done, connect_exact-failed, Connected}
use tubo.Scenarios.PipeRuns.{urls, web}

abbrev attachment : AttachResult
attachment = record {
  service_ref = web;
  pipe_ref = shop_ref;
  pipe_id = pipe_id;
  created = true;
  pipe_created = true;
}

attach-Attached_example :
    Attached plain specs urls owner_cases (at 1000) attaching attachment new_world web_attached
unfolding attach is_blank service_spec_from_target new_ref validate_ref same name_matches trim_space
    validate_service require_kind validate_target kind_of_target before_colon put_service find_row
    attach_pipe owner_key define_or_preserve has_prefix trim_left same_key pipe_id_from_owner
    validate_ingress validate_pipe validate_scope to_string find_pipe_id pipe put_pipe set_grant
    attached_pipe define_pipe contains_string pipe_id
attach-Attached_example =
    attach-Attached plain specs urls owner_cases (at 1000) attaching attachment new_world
      web_attached refl

-- The key file of the pipe cannot be made.
attach-failed_example :
    AtMostService plain specs urls keyless (at 1000) attaching new_world web_only
unfolding attach is_blank service_spec_from_target new_ref validate_ref same name_matches trim_space
    validate_service require_kind validate_target kind_of_target before_colon put_service find_row
    attach_pipe owner_key define_or_preserve has_prefix trim_left same_key pipe_id_from_owner
    validate_ingress validate_pipe validate_scope to_string find_pipe_id pipe put_pipe set_grant
    attached_pipe define_pipe contains_string pipe_id
attach-failed_example =
    attach-failed plain specs urls keyless (at 1000) attaching key_failed new_world web_only refl

abbrev no_share : ShareExactResult
no_share = record { pipe_ref = shop_ref; pipe_id = []; invite = []; expires_at = 0 }

-- At 1000.
abbrev shared : ShareExactResult
shared = ok_or no_share (
    share_exact shop_library specs sharing (at 1000) (some nonce) (lit "pipe/web")
      web_attached.resources)

abbrev shop_text : Bytes
shop_text = ok_or [] (encode_owner_binding shop_library shop_binding)

abbrev binding_in : Result UseError (PipeSpec × Authority × ℕ) → OwnerBinding
binding_in (ok (spec, authority, epoch)) = authority.binding
binding_in (err e) = no_binding

-- The binding of the share is what the library reads.
shop-reads :
    (spec : PipeSpec) (authority : Authority) (epoch : ℕ) (text : Bytes)
    → shared_authority shop_library specs sharing (lit "pipe/web") web_attached.resources
      ≡ ok (spec, authority, epoch)
    → encode_owner_binding shop_library authority.binding ≡ ok text
    → decode_owner_binding shop_library text ≡ ok authority.binding
unfolding share_exact shared_authority owned_pipe redemption_locator current_epoch
    provision_authority key_path valid_pipe_id_component provision from_binding mint_share pipe
    find_pipe_id find_row same_key to_string pipe_id_from_owner pipe_id shop_binding
    new_owner_binding verify_pipe_owner address_count binding_signing_body binding_signing
    domain_bytes sign_binding same has_prefix is_blank trim_space trim_left contains_string
    encode_owner_binding decode_owner_binding decode_canonical decode_strict_json scan_flat_object
    scan_members bound_of verify_owner_binding verify_owner_authority public_from_string
    decode_signature
shop-reads spec authority epoch text got coded =
    let is : shop_binding ≡ authority.binding = ap binding_in got in
    let written : shop_text ≡ text =
      ap (ok_or []) (ap (encode_owner_binding shop_library) is ∙ coded) in
    ap (decode_owner_binding shop_library) (sym written) ∙ ap ok is

share_exact-verifies_example :
    (spec : PipeSpec) × (owner : Bytes) × (invite : ExactInvite) × IsOwned shop_library specs
      sharing
      (at 1000)
      (lit "pipe/web")
      web_attached.resources
      spec
      owner
    × (shared.pipe_id ≡ spec.pipe_id)
    × (encode_invite shop_library invite ≡ ok shared.invite)
    × (current_epoch sharing spec ≡ ok invite.access_epoch)
    × (shared.expires_at ≡ 1000 + default_invite_ttl)
    × (verify_invite shop_library invite 1500 0 shared.pipe_id ≡ ok tt)
unfolding share_exact shared_authority owned_pipe redemption_locator current_epoch
    provision_authority key_path valid_pipe_id_component provision from_binding mint_share pipe
    find_pipe_id find_row same_key to_string pipe_id_from_owner pipe_id shop_binding
    new_owner_binding verify_pipe_owner address_count binding_signing_body binding_signing
    domain_bytes sign_binding same has_prefix is_blank trim_space trim_left contains_string
    encode_owner_binding decode_owner_binding decode_canonical decode_strict_json scan_flat_object
    scan_members bound_of verify_owner_binding verify_owner_authority public_from_string
    decode_signature shop_invite new_exact_invite random_id sign_invite invite_signing_body
    invite_signing verify_invite_fields verify_invite_binding verify_invite verify_window
    decode_invite encode_invite
share_exact-verifies_example =
    share_exact-verifies shop_library (toy-IsLibrary none (some shop_binding) (some shop_invite))
      specs sharing (at 1000) nonce (lit "pipe/web") web_attached.resources shared 1500 0 refl
      (omega arith) shop-reads refl (omega arith) (omega arith) (omega arith)

abbrev sent : Bytes
sent = plain.base64_encode (1 ∷ 2 ∷ [])

abbrev one_accepted : World
one_accepted = ending (accept_exact_invite shop_library client_cases (at 1200) sent new_world)

abbrev answered : AcceptExactInviteResult
answered = record {
  remote_pipe_id = pipe_id;
  recipient_public = client_public;
  lease_expires_at = 1500;
}

accept_exact_invite-done_example :
    (invite : ExactInvite) × (address : Bytes) × (recipient : Bytes) × (acceptance : AcceptedInvite)
    × AcceptedOnce shop_library client_cases
        (at 1200)
        sent
        invite
        address
        recipient
        acceptance
        new_world
        one_accepted
    × (answered ≡ record {
      remote_pipe_id = invite.audience_pipe_id;
      recipient_public = recipient;
      lease_expires_at = acceptance.lease.expires_at;
    })
unfolding accept_exact_invite read_invite accept_verified provision_recipient redemption_address
    before_comma acquire_carrier redeem_and_keep redeem_remotely verify_issued keep_acceptance
    validate_remote put_remote_pipe_binding cache_quietly put_access_lease_cache find_row same_key
    upsert_row pipe_id_from_owner pipe_id shop_binding new_owner_binding verify_pipe_owner
    address_count binding_signing_body binding_signing domain_bytes sign_binding same has_prefix
    is_blank trim_space trim_left contains_string encode_owner_binding decode_owner_binding
    decode_canonical decode_strict_json scan_flat_object scan_members bound_of verify_owner_binding
    verify_owner_authority public_from_string decode_signature shop_invite new_exact_invite
    random_id sign_invite invite_signing_body invite_signing verify_invite_fields
    verify_invite_binding verify_invite verify_window decode_invite encode_invite verify_lease
    verify_lease_fields verify_bound_to verify_lease_signature encode_lease decode_lease
    lease_signing lease_signing_body
accept_exact_invite-done_example =
    accept_exact_invite-done shop_library client_cases (at 1200) sent answered new_world
      one_accepted refl

-- By a renewal at 2000, where nothing is cached.
abbrev access : AcceptedPipeAccess
access = record {
  remote_pipe_id = pipe_id;
  locator = lit "/ip4/peer";
  authority_public = plain.base64_encode authority_public;
  access_lease = second_lease;
}

acquire_accepted_pipe_access-done_example :
    (b : RemotePipeBinding) × (key : Bytes) × (find_binding pipe_id accepted.connections ≡ some b)
    × (public_from_string plain b.authority_public ≡ ok key)
    × (access ≡ access_of plain client_cases (at 2000) b pipe_id second_lease)
    × ValidFor plain client_cases (at 2000) second_lease key b.recipient_public pipe_id
unfolding acquire_accepted_pipe_access accepted_binding get_remote_pipe_binding validate_remote
    cached_access get_access_lease_cache usable_lease renew_access renewed_access acquire_carrier
    renew_remotely verify_issued cache_lease put_access_lease_cache find_row same_key upsert_row
    pipe_id_from_owner pipe_id shop_binding new_owner_binding verify_pipe_owner address_count
    binding_signing_body binding_signing domain_bytes sign_binding same has_prefix is_blank
    trim_space trim_left contains_string encode_owner_binding decode_owner_binding decode_canonical
    decode_strict_json scan_flat_object scan_members bound_of verify_owner_binding
    verify_owner_authority public_from_string decode_signature verify_lease verify_lease_fields
    verify_bound_to verify_lease_signature encode_lease decode_lease lease_signing
    lease_signing_body verify_window
acquire_accepted_pipe_access-done_example =
    acquire_accepted_pipe_access-done plain client_cases (at 2000) pipe_id access accepted
      (ending (acquire_accepted_pipe_access plain client_cases (at 2000) pipe_id accepted)) refl

abbrev connection : ConnectExactResult
connection = record {
  pipe_ref = visit.ref;
  pipe_id = client_pipe_id;
  target_pipe_id = pipe_id;
  local_listen = lit "127.0.0.1:80";
}

abbrev connected : World
connected = ending (connect_exact shop_library specs client_cases (at 1200) connecting visited)

connect_exact-done_example :
    Connected shop_library specs client_cases (at 1200) connecting connection visited connected
unfolding connect_exact connect_planned plan_connect plan_local check_connect_input read_invite
    provision_recipient recipient_ref_for new_ref validate_ref name_matches local_pipe pipe
    find_pipe_id to_string reuse_reference exact_connect_conflict establish store_local
    client_pipe_id accept_verified redemption_address before_comma acquire_carrier redeem_and_keep
    redeem_remotely verify_issued keep_acceptance validate_remote put_remote_pipe_binding
    cache_quietly put_access_lease_cache find_row same_key upsert_row pipe_id_from_owner pipe_id
    shop_binding new_owner_binding verify_pipe_owner address_count binding_signing_body
    binding_signing domain_bytes sign_binding same has_prefix is_blank trim_space trim_left
    contains_string encode_owner_binding decode_owner_binding decode_canonical decode_strict_json
    scan_flat_object scan_members bound_of verify_owner_binding verify_owner_authority
    public_from_string decode_signature shop_invite new_exact_invite random_id sign_invite
    invite_signing_body invite_signing verify_invite_fields verify_invite_binding verify_invite
    verify_window decode_invite encode_invite verify_lease verify_lease_fields verify_bound_to
    verify_lease_signature encode_lease decode_lease lease_signing lease_signing_body
connect_exact-done_example =
    connect_exact-done shop_library specs client_cases (at 1200) connecting connection visited
      connected refl

abbrev dialed : World
dialed = record visited { calls = acquired (lit "/ip4/peer") ∷ [] }

-- The owner's address does not answer.
connect_exact-failed_example :
    (visited.resources ≡ visited.resources)
    × ((dialed ≡ visited)
        ⊎ ((plan : Plan) × (plan_connect shop_library specs unreachable
                (at 1200)
                connecting
                visited.resources
              ≡ ok plan)
            × IsPlan shop_library specs unreachable (at 1200) connecting visited.resources plan
            × FromInput shop_library specs unreachable (at 1200) connecting plan
            × Ready shop_library unreachable plan visited))
unfolding connect_exact connect_planned plan_connect plan_local check_connect_input read_invite
    provision_recipient recipient_ref_for new_ref validate_ref name_matches local_pipe pipe
    find_pipe_id to_string reuse_reference exact_connect_conflict establish store_local
    client_pipe_id accept_verified redemption_address before_comma acquire_carrier redeem_and_keep
    redeem_remotely verify_issued keep_acceptance validate_remote put_remote_pipe_binding
    cache_quietly put_access_lease_cache find_row same_key upsert_row pipe_id_from_owner pipe_id
    shop_binding new_owner_binding verify_pipe_owner address_count binding_signing_body
    binding_signing domain_bytes sign_binding same has_prefix is_blank trim_space trim_left
    contains_string encode_owner_binding decode_owner_binding decode_canonical decode_strict_json
    scan_flat_object scan_members bound_of verify_owner_binding verify_owner_authority
    public_from_string decode_signature shop_invite new_exact_invite random_id sign_invite
    invite_signing_body invite_signing verify_invite_fields verify_invite_binding verify_invite
    verify_window decode_invite encode_invite verify_lease verify_lease_fields verify_bound_to
    verify_lease_signature encode_lease decode_lease lease_signing lease_signing_body
connect_exact-failed_example =
    connect_exact-failed shop_library specs unreachable (at 1200) connecting pipe_unreachable
      visited dialed refl
