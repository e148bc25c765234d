-- ===== src/Scenarios/Team.antt =====
-- One scope, its authority, a publisher and one published pipe.
use tubo.Base.{ℕ, true, false, Option, none, some, [], ◌∷◌, ◌++◌, Bytes, lit, same, if◌then◌else◌}
use tubo.Scoped.Server.{AuthorityRequest, AuthorityHandler, AuthorityState, Draws, Readings}
use tubo.Credential.Encoding.{join_nul, proof_message, sign_proof}
use tubo.Scoped.{scope_text, Token, PipeRecord, ScopedLibrary, at_end}
use tubo.Store.Exact.Relationships.{empty_db}
use tubo.Domain.Model.{Scope}
use tubo.Store.Cache.{Record}
use tubo.Scenarios.Exchange.{
  plain, pipe_id, owner_private, authority_private, client_private, client_public, nonce,
}

abbrev pub team : Scope
team = record { cluster = lit "c"; namespace = lit "n" }

-- What is signed of a token here.
abbrev token_text : Token → Bytes
token_text t = t.jti ++ t.audience ++ (t.expires_at ∷ t.access_epoch ∷ [])

abbrev signed_by : Bytes → Token → Token
signed_by private t = record t {
  issuer = plain.base64_encode (plain.ed_public private);
  signature = plain.base64_encode (plain.ed_sign private (token_text t));
}

abbrev pub own_token : Bytes → Bytes → Bytes → Bytes → Token
own_token type role jti audience = signed_by authority_private (record {
  version = 2;
  type = type;
  issuer = [];
  subject = client_public;
  audience = audience;
  scope = team;
  role = role;
  jti = jti;
  issued_at = 1000;
  expires_at = 9000;
  authority_address = [];
  namespace_key = [];
  one_time = true;
  pipe_endpoint = some (record { peer_id = lit "p"; addresses = lit "a" ∷ []; protocol = lit "t" });
  display_name_hint = [];
  access_epoch = 2;
  publish_epoch = 0;
  signature = [];
})

abbrev pub membership : Token
membership = own_token (lit "membership.invite") (lit "publisher") (lit "m") []

abbrev pub share : Token
share = own_token (lit "share.invite") [] (lit "s") pipe_id

abbrev pub refresh_lease : Token
refresh_lease = own_token (lit "connect.refresh") [] (lit "r") pipe_id

abbrev pub access_lease : Token
access_lease = own_token (lit "connect.access") [] (lit "l") pipe_id

abbrev pub publish_grant : Token
publish_grant = own_token (lit "pipe.publish") [] (lit "g") pipe_id

-- The text of the token with a number, here.
abbrev pub token_code : ℕ → Bytes
token_code n = plain.base64_encode (n ∷ [])

abbrev pub published : PipeRecord
published = record {
  version = 2;
  pipe_id = pipe_id;
  display_name = lit "d";
  owner_public_key = plain.base64_encode (plain.ed_public owner_private);
  runtime_peer_id = lit "p";
  scope = team;
  protocol = lit "t";
  capabilities = [];
  addresses = lit "a" ∷ [];
  visibility = lit "discoverable";
  access = lit "members";
  publish_grant = token_code 5;
  issued_at = 1000;
  expires_at = 9000;
  sequence = 1;
  signature = plain.base64_encode (plain.ed_sign owner_private (9 ∷ []));
}

abbrev numbered : Bytes → Option Token
numbered text =
    if same text (1 ∷ [])
    then some membership
    else if same text (2 ∷ [])
    then some share
    else if same text (3 ∷ [])
    then some refresh_lease
    else if same text (4 ∷ [])
    then some access_lease
    else if same text (5 ∷ [])
    then some publish_grant
    else none

-- Tokens are decoded from their numbers, and a record from 9.
abbrev pub team_library : ScopedLibrary
team_library = record {
  base = plain;
  marshal_token = λ t. some (token_text t);
  unmarshal_token = numbered;
  marshal_record = λ _. some (9 ∷ []);
  unmarshal_record = λ _. some published;
  second_value = λ _. at_end;
  unmarshal_route = λ _. none;
  unmarshal_revocation = λ _. none;
  length_response = λ _ _ _. some 100;
}

abbrev pub handler : AuthorityHandler
handler = record { scope = team; private = authority_private }

abbrev pub readings : Readings
readings = record {
  verified = 2000;
  pruned = 2000;
  selected = 2000;
  record_checked = 2000;
  lease_checked = 2000;
  minted = 2000;
  access_minted = 2000;
  refresh_minted = 2000;
  stored = 2000;
  listed = λ _. 2000;
}

abbrev pub draws : Draws
draws = record {
  token = some nonce;
  access = some nonce;
  refresh = some nonce;
  session = some nonce;
}

-- A request under the token with a number and id.
unfoldable pub asking : Bytes → ℕ → Bytes → Bytes → AuthorityRequest
unfolding sign_proof proof_message join_nul
asking operation n jti body = record {
  operation = operation;
  token = token_code n;
  pipe_id = pipe_id;
  client_public = client_public;
  nonce = lit "x";
  proof =
      sign_proof plain client_private (lit "tubo-authority-v2")
        (operation ∷ pipe_id ∷ lit "x" ∷ jti ∷ []);
  body = body;
  subjects = [];
  access_lease = token_code 4;
}

abbrev pub before : AuthorityState
before = record {
  db = empty_db true;
  cache = record { available = true; leases = []; records = []; snapshots = []; freshness = [] };
}

abbrev pub published_row : Record
published_row = record {
  scope = scope_text team;
  pipe_id = pipe_id;
  name = lit "d";
  payload = 9 ∷ [];
  expires_at = 9000;
  sequence = 1;
  discovered = false;
}

-- After the announcement.
abbrev pub announced : AuthorityState
announced = record before {
  cache = record before.cache {
    records = published_row ∷ [];
    snapshots = record { scope = scope_text team; generation = 1; high_water = 1 } ∷ [];
  };
}
