-- ===== src/Scenarios/ResourceRuns.antt =====
-- The theorems on stored definitions and on runs at two pipes in front of a service.
use tubo.Domain.Model.{validate_ingress, validate_target, validate_service, validate_pipe, PipeSpec}
use tubo.Base.{
  contains_string, trim_space, ◌≡◌, refl, ◌↔◌, true, some, [], ◌∷◌, lit, same, All, has_prefix, ok,
  same_key, find_row, delete_rows, if◌then◌else◌, upsert_row,
}
use tubo.Domain.Ref.{name_matches, validate_ref, require_kind, to_string}
use tubo.Store.Resources.{
  find_pipe_id, service, pipe, set_grant, SpecLibrary, Resources, PipeRow, SessionRow, find_pipe,
  delete_pipe, set_pipe_publish_grant,
}
use tubo.Domain.Graph.{finish_path, load_hop, resolve_from, resolve_logical_path}
use tubo.Store.Runs.{
  insert_peers, Runs, Run, RuntimeStats, RuntimePeer, reserve_run, put_runtime_telemetry,
}
use tubo.Store.Resources.Kept.{no_calls, then_call, grants}
use tubo.Store.Resources.Paths.{store_loaders, resolve_logical_path-kept}
use tubo.Store.Resources.Targets.{TargetsElse, delete_pipe_iff}
use tubo.Store.Runs.Linked.{IsLinked, RunHistory-IsLinked, no_runs, then_run, reserves, measures}
use tubo.Scenarios.PipeRuns.{urls, front, back, web, pipe_to, web_service}

abbrev pub front_pipe : PipeSpec
front_pipe = pipe_to front back (lit "pip_1")

abbrev pub back_pipe : PipeSpec
back_pipe = pipe_to back web (lit "pip_2")

-- A specification is written as the name of its reference.
abbrev pub names : SpecLibrary
names = record {
  marshal_service = λ s. some s.ref.name;
  unmarshal_service = λ _. some web_service;
  marshal_pipe = λ p. some p.ref.name;
  unmarshal_pipe = λ t. if same t (lit "front") then some front_pipe else some back_pipe;
}

abbrev row_of : PipeSpec → PipeRow
row_of p = record {
  ref = to_string p.ref;
  name = p.ref.name;
  pipe_id = p.pipe_id;
  spec = p.ref.name;
  owner_key_file = lit "key";
  publish_grant = [];
}

abbrev stored : Resources
stored = record {
  available = true;
  services = record { ref = to_string web; name = lit "web"; spec = lit "web" } ∷ [];
  pipes = row_of front_pipe ∷ row_of back_pipe ∷ [];
  sessions =
      record {
        id = lit "s1";
        pipe_ref = to_string front;
        initial_transport_path = lit "direct";
        current_transport_path = [];
        started_at = 5;
        bytes_in = 0;
        bytes_out = 0;
      }
      ∷ [];
}

abbrev granted : Resources
granted = record stored {
  pipes = record (row_of front_pipe) { publish_grant = lit "grant" } ∷ row_of back_pipe ∷ [];
}

abbrev front_gone : Resources
front_gone = record stored { pipes = row_of back_pipe ∷ []; sessions = [] }

resolve_logical_path-kept_example :
    resolve_logical_path urls (store_loaders names granted) front 0
    ≡ ok (record { pipes = front ∷ back ∷ []; terminal = web })
unfolding set_pipe_publish_grant set_grant find_row same_key same has_prefix resolve_logical_path
    resolve_from load_hop finish_path pipe service find_pipe_id to_string require_kind validate_pipe
    validate_service validate_ref name_matches contains_string validate_ingress trim_space
    validate_target
resolve_logical_path-kept_example =
    resolve_logical_path-kept names urls front 0
      (record { pipes = front ∷ back ∷ []; terminal = web }) stored granted (refl, (refl, tt)) refl
      (then_call no_calls (grants (to_string front) (lit "grant") refl) tt) refl

delete_pipe_iff_example :
    (delete_pipe names (to_string front) stored ≡ ok (lit "key", front_gone)) ↔ (
      (true ≡ true)
      × ((r : PipeRow) × (find_pipe (to_string front) stored ≡ some r)
          × (r.owner_key_file ≡ lit "key"))
      × All
          (TargetsElse names (to_string front))
          (delete_rows (λ (r : PipeRow). same r.ref (to_string front)) stored.pipes)
      × (front_gone ≡ record stored {
        sessions =
            delete_rows (λ (s : SessionRow). same s.pipe_ref (to_string front)) stored.sessions;
        pipes = delete_rows (λ (r : PipeRow). same r.ref (to_string front)) stored.pipes;
      }))
delete_pipe_iff_example = delete_pipe_iff names (to_string front) (lit "key") stored front_gone

abbrev idle : Runs
idle = record { available = true; runs = []; supervisors = []; stats = []; peers = [] }

abbrev started : Run
started = record {
  primary_ref = lit "pipe/front";
  kind = lit "pipe";
  pid = 0;
  process_identity = [];
  source = lit "foreground";
  status = lit "starting";
  peer_id = [];
  address = [];
  started_at = 3;
  updated_at = 3;
}

abbrev traffic : RuntimeStats
traffic = record {
  run_ref = lit "pipe/front";
  bytes_in = 10;
  bytes_out = 20;
  rate_in = 0;
  rate_out = 0;
  connected_peers = 1;
  open_connections = 1;
  updated_at = 4;
}

abbrev neighbour : RuntimePeer
neighbour = record { run_ref = lit "pipe/front"; peer_id = lit "p"; addresses = []; last_seen = 4 }

abbrev reserved : Runs
reserved = record idle { runs = started ∷ [] }

abbrev measured : Runs
measured = record idle { runs = started ∷ []; stats = traffic ∷ []; peers = neighbour ∷ [] }

RunHistory-IsLinked_example : IsLinked measured
unfolding reserve_run put_runtime_telemetry insert_peers find_row same_key same upsert_row
    delete_rows
RunHistory-IsLinked_example =
    RunHistory-IsLinked {a = idle} {b = measured}
      (then_run
        (then_run no_runs
          (reserves {a = idle} {b = reserved} (lit "pipe/front") (lit "pipe") 3 refl))
        (measures {a = reserved} {b = measured} traffic (neighbour ∷ []) 4 refl))
      (λ k gone. (refl, refl))
