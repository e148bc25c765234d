-- ===== src/Scenarios/Shop.antt =====
-- One owner and one client of a shop's pipe, with what their use cases are given.
use tubo.Base.{ℕ, true, false, none, some, [], ◌∷◌, ◌++◌, Bytes, lit, same, if◌then◌else◌}
use tubo.Domain.Ref.{Ref, kind_pipe}
use tubo.Domain.Model.{PipeSpec}
use tubo.Credential.{Library, ExactInvite, OwnerBinding}
use tubo.Credential.Encoding.{pipe_id_from_owner}
use tubo.Credential.Binding.{new_owner_binding}
use tubo.Credential.Invite.{new_exact_invite}
use tubo.Store.Resources.{SpecLibrary, PipeRow}
use tubo.UseCase.{UseCases, World, Readings}
use tubo.UseCase.Attach.{AttachInput, attached_ingress}
use tubo.UseCase.Checks.{ConnectExactInput}
use tubo.Scenarios.Toy.{toy}
use tubo.Scenarios.PipeRuns.{web, web_service}
use tubo.Scenarios.Exchange.{
  plain, owner_private, authority_private, authority_public, client_private, client_public, nonce,
  pipe_id, no_binding, no_invite, ok_or, first_lease, second_lease,
}

-- The owner's binding names where to redeem.
unfoldable pub shop_binding : OwnerBinding
unfolding new_owner_binding
shop_binding = ok_or no_binding (
    new_owner_binding plain owner_private authority_public pipe_id 2 (lit "/ip4/peer,/ip4/other")
      (lit "/r/1"))

-- Minted at 1000, for 500, in epoch 2.
unfoldable pub shop_invite : ExactInvite
unfolding new_exact_invite
shop_invite =
    ok_or no_invite
      (new_exact_invite plain authority_private shop_binding pipe_id 1000 500 2 (some nonce))

abbrev pub shop_library : Library
shop_library = toy none (some shop_binding) (some shop_invite)

abbrev pub shop_ref : Ref
shop_ref = record { kind = kind_pipe; name = lit "web" }

-- What the owner attaches.
abbrev pub shop_pipe : PipeSpec
shop_pipe = record {
  ref = shop_ref;
  pipe_id = pipe_id;
  scope = none;
  ingress = attached_ingress;
  target = web;
  visibility = lit "unlisted";
  access = lit "invite_only";
  allow_reexport = false;
  created_at = 1000;
  updated_at = 1000;
}

unfoldable pub client_pipe_id : Bytes
unfolding pipe_id_from_owner
client_pipe_id = pipe_id_from_owner plain (plain.ed_public client_private)

-- The client's way to it, from a connection before.
abbrev pub visit : PipeSpec
visit = record {
  ref = record { kind = kind_pipe; name = lit "visit" };
  pipe_id = client_pipe_id;
  scope = none;
  ingress = record {
    kind = lit "local";
    listen = lit "127.0.0.1:80";
    host = [];
    path = [];
    protocol = [];
  };
  target = record { kind = kind_pipe; name = pipe_id };
  visibility = lit "private";
  access = lit "invite_only";
  allow_reexport = false;
  created_at = 900;
  updated_at = 900;
}

-- A specification is written as the name of its reference.
abbrev pub specs : SpecLibrary
specs = record {
  marshal_service = λ s. some s.ref.name;
  unmarshal_service = λ _. some web_service;
  marshal_pipe = λ p. some p.ref.name;
  unmarshal_pipe = λ t. if same t (lit "web") then some shop_pipe else some visit;
}

abbrev pub owner_cases : UseCases
owner_cases = record {
  secrets = lit "/secrets";
  join = λ _. lit "owner.key";
  provision_key = λ _. some owner_private;
  load_key = λ _. some owner_private;
  owner_locator = some (λ _ _. some (lit "/ip4/peer,/ip4/other"));
  exact_epoch = some (λ _. some 2);
  redemption_protocol = lit "/r/1";
  redemption = none;
  renewal = none;
  reach = none;
  has_bindings = false;
  has_lease_cache = false;
}

-- Its authority's key file.
abbrev pub sharing : UseCases
sharing = record owner_cases { provision_key = λ _. some authority_private }

abbrev pub keyless : UseCases
keyless = record owner_cases { provision_key = λ _. none }

abbrev pub client_cases : UseCases
client_cases = record {
  secrets = lit "/secrets";
  join = λ _. lit "client.key";
  provision_key = λ _. some client_private;
  load_key = λ _. some client_private;
  owner_locator = none;
  exact_epoch = none;
  redemption_protocol = [];
  redemption = some (λ _ _. some first_lease);
  renewal = some (λ _. some second_lease);
  reach = some (λ _. true);
  has_bindings = true;
  has_lease_cache = true;
}

abbrev pub unreachable : UseCases
unreachable = record client_cases { reach = some (λ _. false) }

abbrev pub at : ℕ → Readings
at now = record {
  now = now;
  spec_at = now;
  cached_at = now;
  later = now;
  stored_at = now;
  wall = now;
}

abbrev pub new_world : World
new_world = record {
  resources = record { available = true; services = []; pipes = []; sessions = [] };
  connections = record { available = true; bindings = []; lease_cache = [] };
  calls = [];
}

abbrev row_of : PipeSpec → Bytes → PipeRow
row_of p key = record {
  ref = lit "pipe/" ++ p.ref.name;
  name = p.ref.name;
  pipe_id = p.pipe_id;
  spec = p.ref.name;
  owner_key_file = key;
  publish_grant = [];
}

abbrev pub web_attached : World
web_attached = record new_world {
  resources = record {
    available = true;
    services = record { ref = lit "service/web"; name = lit "web"; spec = lit "web" } ∷ [];
    pipes = row_of shop_pipe (lit "owner.key") ∷ [];
    sessions = [];
  };
}

-- The service is there, and the key of the pipe has failed.
abbrev pub web_only : World
web_only = record web_attached { resources = record web_attached.resources { pipes = [] } }

abbrev pub visited : World
visited = record new_world {
  resources = record new_world.resources { pipes = row_of visit (lit "client.key") ∷ [] };
}

-- The client has accepted the pipe before.
abbrev pub accepted : World
accepted = record new_world {
  connections = record {
    available = true;
    bindings =
        record {
          remote_pipe_id = pipe_id;
          authority_public = plain.base64_encode authority_public;
          owner_binding = lit "b";
          locator = lit "/ip4/peer";
          recipient_public = client_public;
          source = lit "invite";
          created_at = 1200;
          updated_at = 1200;
        }
        ∷ [];
    lease_cache = [];
  };
}

abbrev pub attaching : AttachInput
attaching = record { name = lit "web"; target = lit "http://web" }

abbrev pub connecting : ConnectExactInput
connecting = record {
  invite = plain.base64_encode (1 ∷ 2 ∷ []);
  remote_pipe_id = [];
  local_listen = lit "127.0.0.1:80";
  name = lit "visit";
}
