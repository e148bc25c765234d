-- ===== src/Scenarios/PipeRuns.antt =====
-- The theorems on paths and hops at two pipes in front of a service.
use tubo.Base.{
  ◌-◌, ◌≤◌, ◌<◌, ◌≡◌, refl, ◌↔◌, true, false, none, some, List, [], ◌∷◌, Bytes, lit, same,
  contains_string, length, if◌then◌else◌, ok,
}
use tubo.Domain.Graph.Walks.{resolve_logical_path_iff, Fresh, Walk}
use tubo.Domain.Model.{PipeSpec, ServiceSpec, UrlLibrary}
use tubo.Engine.Traversal.{advances_iff, from_wire_iff, Distinct, IsBounded, advances}
use tubo.Domain.Ref.{kind_pipe, kind_service, require_kind, Ref}
use tubo.Engine.{Capabilities, TraversalState, from_wire}
use tubo.Domain.Graph.{Loaders, resolve_logical_path}

abbrev pub urls : UrlLibrary
urls = record { parse_url = λ s. some (lit "http", s); splits_host_port = λ _. true }

abbrev pub front : Ref
front = record { kind = kind_pipe; name = lit "front" }

abbrev pub back : Ref
back = record { kind = kind_pipe; name = lit "back" }

abbrev pub web : Ref
web = record { kind = kind_service; name = lit "web" }

abbrev pub pipe_to : Ref → Ref → Bytes → PipeSpec
pipe_to ref target pipe_id = record {
  ref = ref;
  pipe_id = pipe_id;
  scope = none;
  ingress = record { kind = lit "tubo"; listen = []; host = []; path = []; protocol = [] };
  target = target;
  visibility = lit "unlisted";
  access = lit "invite_only";
  allow_reexport = false;
  created_at = 0;
  updated_at = 0;
}

abbrev pub web_service : ServiceSpec
web_service = record {
  ref = web;
  kind = lit "http";
  target = lit "http://web";
  description = [];
  metadata = [];
}

-- front leads to back, and back to the service.
abbrev loaders : Loaders
loaders = record {
  load_pipe = λ r.
      if same r.name (lit "front")
      then some (pipe_to front back (lit "p1"))
      else some (pipe_to back web (lit "p2"));
  load_service = λ _. some web_service;
}

abbrev capabilities : Capabilities
capabilities = record {
  urls = urls;
  loaders = loaders;
  dial_service = λ _. some 80;
  open_downstream = some (λ next state. some (6, next.pipe_id));
}

abbrev at_front : TraversalState
at_front = record { visited_ids = lit "p1" ∷ []; remaining = 7; max_hops = 8 }

abbrev at_back : TraversalState
at_back = record { visited_ids = lit "p1" ∷ lit "p2" ∷ []; remaining = 6; max_hops = 8 }

resolve_logical_path_iff_example :
    (resolve_logical_path urls loaders front 0
      ≡ ok (record { pipes = front ∷ back ∷ []; terminal = web }))
    ↔ ((require_kind front kind_pipe ≡ ok tt)
        × ((cs : List Ref) × Walk urls loaders front cs (front ∷ back ∷ []) web
            × Fresh [] cs
            × (length cs ≤ 8)))
resolve_logical_path_iff_example =
    resolve_logical_path_iff urls loaders front 0
      (record { pipes = front ∷ back ∷ []; terminal = web })

from_wire_iff_example : (from_wire (lit "p1" ∷ []) 8 ≡ ok at_front) ↔ (
    (8 ≤ 8)
    × (1 < 8)
    × ((lit "p1" ∷ []) ≡ (lit "p1" ∷ []))
    × (at_front.max_hops ≡ 8)
    × IsBounded 8 at_front)
from_wire_iff_example = from_wire_iff (lit "p1" ∷ []) 8 at_front

advances_iff_example : (advances at_front (lit "p2" ∷ []) ≡ ok at_back) ↔ (
    Distinct (lit "p1" ∷ lit "p2" ∷ [])
    × (1 ≤ 7)
    × ((lit "p1" ∷ lit "p2" ∷ []) ≡ (lit "p1" ∷ lit "p2" ∷ []))
    × (at_back.remaining ≡ 7 - 1)
    × (at_back.max_hops ≡ 8))
unfolding contains_string
advances_iff_example = advances_iff (lit "p2" ∷ []) at_front at_back (refl, tt)
