-- ===== src/Scenarios/Exchange.antt =====
-- One invite of one pipe through its exchanges.
use tubo.Base.{
  ℕ, true, false, none, some, [], ◌∷◌, ◌++◌, Bytes, lit, replicate, Result, ok, err, or_fail,
}
use tubo.Store.Exact.Relationships.{empty_db}
use tubo.Store.Exact.{Relationship, exact, pipe_access, Db}
use tubo.Exact.{denied, Loader}
use tubo.Scenarios.Toy.{digest, toy}
use tubo.Credential.{
  access_lease_signing_domain, access_lease_type, open_proof_purpose, renew_proof_purpose,
  redeem_proof_purpose, AccessLease, ExactInvite, Library, OwnerBinding,
}
use tubo.Exact.Renew.{RenewCall}
use tubo.Exact.Authorize.{ExactOpenAuthorizer, OpenRequest}
use tubo.Exact.Redeem.{RedeemCall}
use tubo.Credential.Invite.{invite_signing, invite_signing_body, sign_invite, new_exact_invite}
use tubo.Credential.Binding.{
  address_count, encode_owner_binding, verify_owner_binding, verify_owner_authority,
  binding_signing, binding_signing_body, sign_binding, new_owner_binding,
}
use tubo.Credential.Encoding.{
  sign_proof, random_id, decode_signature, public_from_string, decode_canonical, domain_bytes,
  verify_pipe_owner, pipe_id_from_owner,
}

abbrev pub ok_or : {E A : Type 0} → A → Result E A → A
ok_or a (ok x) = x
ok_or a (err _) = a

abbrev pub plain : Library
plain = toy none none none

abbrev pub owner_private : Bytes
owner_private = replicate 64 7

abbrev pub authority_private : Bytes
authority_private = replicate 64 9

abbrev pub client_private : Bytes
client_private = replicate 64 5

abbrev pub authority_public : Bytes
authority_public = plain.ed_public authority_private

abbrev pub client_public : Bytes
client_public = plain.base64_encode (plain.ed_public client_private)

abbrev pub nonce : Bytes
nonce = replicate 16 3

unfoldable pub pipe_id : Bytes
unfolding pipe_id_from_owner
pipe_id = pipe_id_from_owner plain (plain.ed_public owner_private)

abbrev pub no_binding : OwnerBinding
no_binding = record {
  version = 0;
  type = [];
  owner = [];
  authority_key = [];
  pipe_id = [];
  redemption_peers = [];
  redemption_protocol = [];
  epoch = 0;
  signature = [];
}

unfoldable pub binding : OwnerBinding
unfolding new_owner_binding pipe_id_from_owner verify_pipe_owner sign_binding binding_signing_body
    binding_signing domain_bytes
binding = ok_or no_binding (new_owner_binding plain owner_private authority_public pipe_id 2 [] [])

abbrev pub no_invite : ExactInvite
no_invite = record {
  version = 0;
  type = [];
  issuer = [];
  audience_pipe_id = [];
  binding = [];
  jti = [];
  issued_at = 0;
  not_before = 0;
  expires_at = 0;
  access_epoch = 0;
  one_time = false;
  signature = [];
}

-- Minted at 1000, for 500, in epoch 2.
unfoldable pub invite : ExactInvite
unfolding new_exact_invite verify_owner_authority verify_owner_binding decode_canonical
    public_from_string decode_signature binding_signing_body binding_signing domain_bytes
    verify_pipe_owner pipe_id_from_owner encode_owner_binding random_id sign_invite
    invite_signing_body invite_signing address_count
invite =
    ok_or no_invite
      (new_exact_invite plain authority_private binding pipe_id 1000 500 2 (some nonce))

abbrev pub authority_loader : Loader
authority_loader = record { stored_key = some authority_private; binding = binding }

-- What the server decodes: this invite, with this binding.
abbrev pub server : Library
server = toy none (some binding) (some invite)

abbrev pub no_rows : Db
no_rows = empty_db true

-- The pipe's access epoch is 2.
abbrev pub moved_db : Db
moved_db = record no_rows {
  revocations =
      record {
        scope = pipe_id;
        subject_type = pipe_access;
        subject_jti = pipe_id;
        revoked_at = 900;
        epoch = 2;
      }
      ∷ [];
}

abbrev pub challenge : Bytes
challenge = 4 ∷ 2 ∷ []

-- The client redeems the invite at 1100.
abbrev pub redemption : RedeemCall
redemption = record {
  now = 1100;
  wall = 1100;
  encoded_invite = plain.base64_encode (1 ∷ 2 ∷ []);
  recipient_public = client_public;
  server_challenge = challenge;
  challenge_proof =
      sign_proof plain client_private redeem_proof_purpose (invite.jti ∷ pipe_id ∷ challenge ∷ []);
  loader = authority_loader;
  adapter = some pipe_id;
  lease_lifetime = 0;
  alive = true;
  session_random = some nonce;
  lease_random = some nonce;
}

abbrev pub minted_jti : Bytes
minted_jti = lit "jti_" ++ plain.base32_encode nonce

abbrev signed_body : ℕ → Bytes
signed_body expires_at =
    access_lease_signing_domain
    ++ ok_or [] (or_fail (digest minted_jti pipe_id expires_at 2) denied)

-- A lease of epoch 2 with these times.
abbrev lease_of : ℕ → ℕ → AccessLease
lease_of now expires_at = record {
  version = 1;
  type = access_lease_type;
  issuer = plain.base64_encode authority_public;
  subject = client_public;
  audience_pipe_id = pipe_id;
  jti = minted_jti;
  issued_at = now;
  not_before = now;
  expires_at = expires_at;
  access_epoch = 2;
  signature = plain.base64_encode (plain.ed_sign authority_private (signed_body expires_at));
}

-- It ends with the invite.
abbrev pub first_lease : AccessLease
first_lease = lease_of 1100 1500

abbrev pub session_id : Bytes
session_id = lit "ses_" ++ plain.base32_encode nonce

abbrev pub first_relationship : Relationship
first_relationship = record {
  pipe_id = pipe_id;
  recipient_public = client_public;
  invite_jti = minted_jti;
  access_epoch = 2;
  accepted_at = 1100;
  updated_at = 1100;
}

abbrev pub redeemed_db : Db
redeemed_db = record moved_db {
  redemptions =
      record {
        jti = minted_jti;
        pipe_id = pipe_id;
        redeemed_at = 1100;
        session_id = session_id;
        client_public = client_public;
        kind = exact;
      }
      ∷ [];
  relationships = first_relationship ∷ [];
}

-- Its context is canceled before the transaction.
abbrev pub dropped : RedeemCall
dropped = record redemption { alive = false }

-- The client renews at 2000, when its first lease and the invite are over.
abbrev pub renewal : RenewCall
renewal = record {
  now = 2000;
  pipe_id = pipe_id;
  recipient_public = client_public;
  owner_binding = plain.base64_encode (1 ∷ []);
  server_challenge = challenge;
  challenge_proof = sign_proof plain client_private renew_proof_purpose (pipe_id ∷ challenge ∷ []);
  loader = authority_loader;
  adapter = some pipe_id;
  lease_lifetime = 700;
  lease_random = some nonce;
}

abbrev pub second_lease : AccessLease
second_lease = lease_of 2000 2700

-- The pipe's server opens on the first lease at 1200.
abbrev pub opener : Library
opener = toy (some first_lease) none none

abbrev pub authorizer : ExactOpenAuthorizer
authorizer = record {
  lease_public = plain.ed_public authority_private;
  pipe_id = pipe_id;
  scope = pipe_id;
}

abbrev pub opening : OpenRequest
opening = record {
  pipe_id = pipe_id;
  client_public = client_public;
  challenge = challenge;
  challenge_proof = sign_proof plain client_private open_proof_purpose (challenge ∷ pipe_id ∷ []);
  access_lease = plain.base64_encode (6 ∷ []);
  now = 1200;
}

-- Three revocations that come after the redemption.
abbrev pub moved_on_db : Db
moved_on_db = record redeemed_db {
  revocations =
      record {
        scope = pipe_id;
        subject_type = pipe_access;
        subject_jti = pipe_id;
        revoked_at = 1300;
        epoch = 3;
      }
      ∷ [];
}

-- A lease minted for the client at 1000.
abbrev pub minted : AccessLease
minted = lease_of 1000 1500
