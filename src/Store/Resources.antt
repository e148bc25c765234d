-- ===== src/Store/Resources.antt =====
-- internal/store/store.go: the definitions of services and pipes, and the sessions of a pipe.

pub mod Effects
pub mod Kept
pub mod Written
pub mod Paths
pub mod Targets
use tubo.Base.{
  ℕ, Bool, true, false, not, Option, none, some, List, [], ◌∷◌, Bytes, same, is_empty, bytes_le,
  any, if◌then◌else◌, Result, ok, err, ◌>>=◌, ◌>>◌, fail_if, or_fail, map_err, find_row,
  delete_rows,
}
use tubo.Domain.Ref.{Ref, to_string}
use tubo.Domain.Model.{
  UrlLibrary, SpecError, ServiceSpec, PipeSpec, validate_service, validate_pipe,
}

-- `encoding/json` at the two specifications.
pub record SpecLibrary : Type 0 where
  pub marshal_service : ServiceSpec → Option Bytes
  pub unmarshal_service : Bytes → Option ServiceSpec
  pub marshal_pipe : PipeSpec → Option Bytes
  pub unmarshal_pipe : Bytes → Option PipeSpec

-- `services`; the column `name` is the name of the reference.
pub record ServiceRow : Type 0 where
  pub ref : Bytes
  pub name : Bytes
  pub spec : Bytes

pub record PipeRow : Type 0 where
  pub ref : Bytes
  pub name : Bytes
  pub pipe_id : Bytes
  pub spec : Bytes
  pub owner_key_file : Bytes
  pub publish_grant : Bytes

-- `sessions`, a row of which is also the Go type `Session`.
pub record SessionRow : Type 0 where
  pub id : Bytes
  pub pipe_ref : Bytes
  pub initial_transport_path : Bytes
  pub current_transport_path : Bytes
  pub started_at : ℕ
  pub bytes_in : ℕ
  pub bytes_out : ℕ

-- The three tables. A statement or a transaction fails where the database is not available.
pub record Resources : Type 0 where
  pub available : Bool
  pub services : List ServiceRow
  pub pipes : List PipeRow
  pub sessions : List SessionRow

pub data ResourceError : Type 0 where
  invalid_spec : SpecError → ResourceError
  marshal_failed unmarshal_failed database_failed constraint_failed : ResourceError
  conflicting_spec not_found : ResourceError
  targeted_by : Bytes → ResourceError

-- The primary keys.
abbrev pub service_key : ServiceRow → List Bytes
service_key r = r.ref ∷ []

abbrev pub pipe_key : PipeRow → List Bytes
pipe_key r = r.ref ∷ []

abbrev pub session_key : SessionRow → List Bytes
session_key r = r.id ∷ []

abbrev pub find_service : Bytes → Resources → Option ServiceRow
find_service ref db = find_row service_key (ref ∷ []) db.services

abbrev pub find_pipe : Bytes → Resources → Option PipeRow
find_pipe ref db = find_row pipe_key (ref ∷ []) db.pipes

unfoldable pub find_pipe_id : Bytes → List PipeRow → Option PipeRow
find_pipe_id pipe_id [] = none
find_pipe_id pipe_id (r ∷ rs) =
    let rest = find_pipe_id pipe_id rs in if same r.pipe_id pipe_id then some r else rest

-- `WHERE ref=? OR pipe_id=?`: the row that the index of `ref` finds, or else that of `pipe_id`.
abbrev pub find_identified : Bytes → Resources → Option PipeRow
find_identified identifier db = elim (find_pipe identifier db) [
  | some r ↦ some r
  | none ↦ find_pipe_id identifier db.pipes
]

-- `ORDER BY`, by an insertion that keeps rows that compare equal in the order of the table.
unfoldable pub insert_by : {R : Type 0} → (R → R → Bool) → R → List R → List R
insert_by before v [] = v ∷ []
insert_by before v (r ∷ rs) =
    let rest = insert_by before v rs in if before v r then v ∷ r ∷ rs else r ∷ rest

unfoldable pub order_by : {R : Type 0} → (R → R → Bool) → List R → List R
order_by before [] = []
order_by before (r ∷ rs) = insert_by before r (order_by before rs)

-- Reading the specifications of rows; the first one that cannot be read fails the query.
unfoldable pub read_all : {R S : Type 0} → (R → Option S) → List R → Result ResourceError (List S)
read_all read [] = ok []
read_all read (r ∷ rs) =
    let rest = read_all read rs in
    do spec ← or_fail (read r) unmarshal_failed; specs ← rest; ok (spec ∷ specs)

abbrev pub service_row : Bytes → ServiceSpec → ServiceRow
service_row spec_text s = record { ref = to_string s.ref; name = s.ref.name; spec = spec_text }

abbrev pub pipe_row : Bytes → PipeSpec → Bytes → Bytes → PipeRow
pipe_row spec_text p key grant = record {
  ref = to_string p.ref;
  name = p.ref.name;
  pipe_id = p.pipe_id;
  spec = spec_text;
  owner_key_file = key;
  publish_grant = grant;
}

-- `UPDATE pipes SET publish_grant=? WHERE ref=?`.
unfoldable pub set_grant : Bytes → Bytes → List PipeRow → List PipeRow
set_grant ref grant [] = []
set_grant ref grant (r ∷ rs) =
    let rest = set_grant ref grant rs in
    (if same r.ref ref then record r { publish_grant = grant } else r) ∷ rest

module _ (g : SpecLibrary) where
  open g use {marshal_service, unmarshal_service, marshal_pipe, unmarshal_pipe}

  -- `PutService`.
  unfoldable pub put_service :
      UrlLibrary → ServiceSpec → Resources → Result ResourceError (Bool × Resources)
  put_service u s db = do
    map_err invalid_spec (validate_service u s)
    spec_text ← or_fail (marshal_service s) marshal_failed
    fail_if (not db.available) database_failed
    elim (find_service (to_string s.ref) db) [
      | some r ↦ if same r.spec spec_text then ok (false, db) else err conflicting_spec
      | none ↦ do
        fail_if (any (λ (r : ServiceRow). same r.name s.ref.name) db.services) constraint_failed
        ok (true, record db { services = service_row spec_text s ∷ db.services })
    ]

  -- `Service`.
  unfoldable pub service : Ref → Resources → Result ResourceError ServiceSpec
  service ref db = do
    fail_if (not db.available) database_failed
    r ← or_fail (find_service (to_string ref) db) not_found
    or_fail (unmarshal_service r.spec) unmarshal_failed

  -- `Services`, in the order of their names.
  unfoldable pub services : Resources → Result ResourceError (List ServiceSpec)
  services db = do
    fail_if (not db.available) database_failed
    read_all (λ (r : ServiceRow). unmarshal_service r.spec)
        (order_by (λ (a b : ServiceRow). bytes_le a.name b.name) db.services)

  -- `PutPipe`.
  unfoldable pub put_pipe :
      PipeSpec → Bytes → Bytes → Resources → Result ResourceError (Bool × Resources)
  put_pipe p key grant db = do
    map_err invalid_spec (validate_pipe p)
    spec_text ← or_fail (marshal_pipe p) marshal_failed
    fail_if (not db.available) database_failed
    elim (find_pipe (to_string p.ref) db) [
      | some r ↦
          if same r.spec spec_text
          then ok (
            false,
            record db {
              pipes =
                  if is_empty grant then db.pipes else set_grant (to_string p.ref) grant db.pipes;
            },
          )
          else err conflicting_spec
      | none ↦ do
        fail_if (any (λ (r : PipeRow). same r.pipe_id p.pipe_id) db.pipes) constraint_failed
        ok (true, record db { pipes = pipe_row spec_text p key grant ∷ db.pipes })
    ]

  -- `Pipe`: the specification, the owner's key file and the publish grant.
  unfoldable pub pipe : Bytes → Resources → Result ResourceError (PipeSpec × Bytes × Bytes)
  pipe identifier db = do
    fail_if (not db.available) database_failed
    r ← or_fail (find_identified identifier db) not_found
    spec ← or_fail (unmarshal_pipe r.spec) unmarshal_failed
    ok (spec, r.owner_key_file, r.publish_grant)

  -- `Pipes`, in the order of their names and identifiers.
  unfoldable pub pipes : Resources → Result ResourceError (List PipeSpec)
  pipes db = do
    fail_if (not db.available) database_failed
    read_all (λ (r : PipeRow). unmarshal_pipe r.spec)
        (order_by
          (λ (a b : PipeRow).
            if same a.name b.name then bytes_le a.pipe_id b.pipe_id else bytes_le a.name b.name)
          db.pipes)

  -- The loop over the other pipes: none of them targets what is deleted.
  unfoldable pub check_untargeted : Bytes → List PipeRow → Result ResourceError (Unit {0})
  check_untargeted ref [] = ok tt
  check_untargeted ref (r ∷ rs) =
      let rest = check_untargeted ref rs in
      do
        spec ← or_fail (unmarshal_pipe r.spec) unmarshal_failed
        fail_if (same (to_string spec.target) ref) (targeted_by r.ref)
        rest

  -- `DeletePipe`: the owner's key file. An error rolls the transaction back.
  unfoldable pub delete_pipe : Bytes → Resources → Result ResourceError (Bytes × Resources)
  delete_pipe ref db = do
    fail_if (not db.available) database_failed
    row ← or_fail (find_pipe ref db) not_found
    check_untargeted ref (delete_rows (λ (r : PipeRow). same r.ref ref) db.pipes)
    ok (
      row.owner_key_file,
      record db {
        sessions = delete_rows (λ (s : SessionRow). same s.pipe_ref ref) db.sessions;
        pipes = delete_rows (λ (r : PipeRow). same r.ref ref) db.pipes;
      },
    )

  -- `DeleteService`.
  unfoldable pub delete_service : Bytes → Resources → Result ResourceError Resources
  delete_service ref db = do
    fail_if (not db.available) database_failed
    _ ← or_fail (find_service ref db) not_found
    check_untargeted ref db.pipes
    ok (record db { services = delete_rows (λ (r : ServiceRow). same r.ref ref) db.services })

-- `SetPipePublishGrant`; a reference is the key of one row at most.
unfoldable pub set_pipe_publish_grant : Bytes → Bytes → Resources → Result ResourceError Resources
set_pipe_publish_grant ref grant db = do
  fail_if (not db.available) database_failed
  _ ← or_fail (find_pipe ref db) not_found
  ok (record db { pipes = set_grant ref grant db.pipes })
