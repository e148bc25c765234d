-- ===== src/Store/Resources/Paths.antt =====
-- internal/runtime/engine_adapter.go: the logical paths of the definitions that the store has.
use tubo.Base.{
  ◌≡◌, refl, ap, ◌∙◌, inl, inr, true, false, Option, some, none, List, [], ◌∷◌, arith, Bytes, lit,
  same, same_iff, has_prefix, All, Bool-cases, Option-cases, ℕ, Result, ok, err,
}
use tubo.Domain.Ref.{Ref, kind_pipe, require_kind, to_string}
use tubo.Domain.Model.{UrlLibrary, ServiceSpec, PipeSpec}
use tubo.Domain.Graph.{Loaders, LogicalPath, resolve_logical_path}
use tubo.Domain.Graph.Walks.{Walk, last, hop, resolve_logical_path_iff}
use tubo.Store.Resources.{
  SpecLibrary, Resources, ServiceRow, PipeRow, find_service, find_pipe, find_pipe_id, service, pipe,
}
use tubo.Store.Resources.Kept.{
  HistorySparing, find_pipe-kept, find_service-kept, HistorySparing-target,
}

abbrev answer {ℓ} : {E : Type 0} {A : Type ℓ} → Result E A → Option A
answer (ok a) = some a
answer (err e) = none

abbrev spec_answer : {E : Type 0} → Result E (PipeSpec × Bytes × Bytes) → Option PipeSpec
spec_answer (ok (spec, key, grant)) = some spec
spec_answer (err e) = none

-- The resolvers of `newPipeEngine`.
abbrev pub store_loaders : SpecLibrary → Resources → Loaders
store_loaders g db = record {
  load_pipe = λ ref. spec_answer (pipe g (to_string ref) db);
  load_service = λ ref. answer (service g ref db);
}

-- Every pipe's identifier is of the form that `PipeIDFromOwner` gives.
abbrev pub HasPipeIds : Resources → Type 0
HasPipeIds db = All (λ (r : PipeRow). has_prefix (lit "pip_") r.pipe_id ≡ true) db.pipes

pipe_ref-has_prefix : (c : Ref) → c.kind ≡ kind_pipe → has_prefix (lit "pip_") (to_string c) ≡ false
unfolding has_prefix to_string
pipe_ref-has_prefix c e = ground arith

-- No identifier of a pipe is the text of a pipe's reference.
find_pipe_id-ref :
    (c : Ref) (rows : List PipeRow)
    → c.kind ≡ kind_pipe
    → All (λ (r : PipeRow). has_prefix (lit "pip_") r.pipe_id ≡ true) rows
    → find_pipe_id (to_string c) rows ≡ none
unfolding find_pipe_id
find_pipe_id-ref c [] e ids = refl
find_pipe_id-ref c (r ∷ rs) e ids = elim (Bool-cases (same r.pipe_id (to_string c))) [
  | inl hit ↦ ground (arith, pipe_ref-has_prefix c e, same_iff r.pipe_id (to_string c))
  | inr miss ↦ ground (arith, find_pipe_id-ref c rs e)
]

module _ (g : SpecLibrary) where
  load_pipe-found :
      (c : Ref) (p : PipeSpec) (db : Resources)
      → c.kind ≡ kind_pipe
      → HasPipeIds db
      → (store_loaders g db).load_pipe c ≡ some p
      → (r : PipeRow) × (find_pipe (to_string c) db ≡ some r) × (g.unmarshal_pipe r.spec ≡ some p)
  unfolding pipe
  load_pipe-found c p db e ids h = elim (Option-cases (find_pipe (to_string c) db)) [
    | inl missing ↦ absurd (ground (arith, find_pipe_id-ref c db.pipes e ids))
    | inr (r, found) ↦ (
      r,
      found,
      elim (Option-cases (g.unmarshal_pipe r.spec)) [
        | inl failed ↦ ground arith
        | inr (q, read) ↦ ground arith
      ],
    )
  ]

  load_pipe-of_row :
      (c : Ref) (p : PipeSpec) (r : PipeRow) (db : Resources)
      → db.available ≡ true
      → find_pipe (to_string c) db ≡ some r
      → g.unmarshal_pipe r.spec ≡ some p
      → (store_loaders g db).load_pipe c ≡ some p
  unfolding pipe
  load_pipe-of_row c p r db up found read = ground arith

  load_service-found :
      (c : Ref) (s : ServiceSpec) (db : Resources)
      → (store_loaders g db).load_service c ≡ some s
      → (r : ServiceRow) × (find_service (to_string c) db ≡ some r)
        × (g.unmarshal_service r.spec ≡ some s)
  unfolding service
  load_service-found c s db h = elim (Option-cases (find_service (to_string c) db)) [
    | inl missing ↦ absurd (ground arith)
    | inr (r, found) ↦ (
      r,
      found,
      elim (Option-cases (g.unmarshal_service r.spec)) [
        | inl failed ↦ ground arith
        | inr (q, read) ↦ ground arith
      ],
    )
  ]

  load_service-of_row :
      (c : Ref) (s : ServiceSpec) (r : ServiceRow) (db : Resources)
      → db.available ≡ true
      → find_service (to_string c) db ≡ some r
      → g.unmarshal_service r.spec ≡ some s
      → (store_loaders g db).load_service c ≡ some s
  unfolding service
  load_service-of_row c s r db up found read = ground arith

  module _ (u : UrlLibrary) {a b : Resources} (up : b.available ≡ true) (ids : HasPipeIds a) where
    Walk-kept :
        {c : Ref} {cs ps : List Ref} {t : Ref}
        → Walk u (store_loaders g a) c cs ps t
        → c.kind ≡ kind_pipe
        → HistorySparing g u (to_string c) a b
        → Walk u (store_loaders g b) c cs ps t
    Walk-kept {c} (last p s loaded valid kind served fine) e past =
        let (r, found, read) = load_pipe-found c p a e ids loaded in
        let (w, is, like) = find_pipe-kept g u (to_string c) r past found in
        let (v, there, spec) = load_service-found p.target s a served in
        let after = HistorySparing-target g u (to_string c) r p found read past in
        last p s (load_pipe-of_row c p w b up is (ap g.unmarshal_pipe like.0 ∙ read)) valid kind
          (load_service-of_row p.target s v b up
            (find_service-kept g u (to_string p.target) v after there) spec)
          fine
    Walk-kept {c} (hop p loaded valid kind rest) e past =
        let (r, found, read) = load_pipe-found c p a e ids loaded in
        let (w, is, like) = find_pipe-kept g u (to_string c) r past found in
        let after = HistorySparing-target g u (to_string c) r p found read past in
        hop p (load_pipe-of_row c p w b up is (ap g.unmarshal_pipe like.0 ∙ read)) valid kind
          (Walk-kept rest kind after)

require_kind-ok : (c : Ref) (kind : Bytes) → require_kind c kind ≡ ok tt → c.kind ≡ kind
unfolding require_kind
require_kind-ok c kind h = ground (arith, same_iff c.kind kind)

-- Where pipe identifiers are of the owner's form, a logical path that resolves from the store's
-- definitions resolves to the same path after any history of calls that does not delete its first
-- pipe, whenever the database answers.
pub resolve_logical_path-kept :
    (g : SpecLibrary) (u : UrlLibrary) (start : Ref) (max_hops : ℕ) (path : LogicalPath)
    (a b : Resources)
    → HasPipeIds a
    → b.available ≡ true
    → HistorySparing g u (to_string start) a b
    → resolve_logical_path u (store_loaders g a) start max_hops ≡ ok path
    → resolve_logical_path u (store_loaders g b) start max_hops ≡ ok path
resolve_logical_path-kept g u start max_hops path a b ids up past h =
    let (kind, found) = (resolve_logical_path_iff u (store_loaders g a) start max_hops path).0 h in
    let (cs, walk, fresh, short) = found in
    (resolve_logical_path_iff u (store_loaders g b) start max_hops path).1 (
      kind,
      (cs, Walk-kept g u up ids walk (require_kind-ok start kind_pipe kind) past, fresh, short),
    )
