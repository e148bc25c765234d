-- ===== src/Store/Resources/Kept.antt =====
-- Definitions of internal/store/store.go over histories: what is targeted is not deleted.
use tubo.Base.{
  ◌≡◌, ◌≢◌, refl, sym, ap, ◌∙◌, inl, inr, Bool, some, List, [], ◌∷◌, arith, Bytes, same, same_iff,
  Bool-cases, ok, same_key, find_row, find_row-spared, if◌then◌else◌,
}
use tubo.Domain.Ref.{to_string}
use tubo.Domain.Model.{UrlLibrary, ServiceSpec, PipeSpec}
use tubo.Store.Resources.{
  SpecLibrary, Resources, ServiceRow, PipeRow, service_key, pipe_key, find_service, find_pipe,
  put_service, put_pipe, set_grant, set_pipe_publish_grant, delete_pipe, delete_service,
}
use tubo.Store.Resources.Effects.{
  put_service-ok, put_pipe-ok, grant-ok, delete_pipe-ok, delete_service-ok, check_untargeted-found,
}

-- One call that commits, or a change of what the definitions do not depend on.
pub data ResourceCall (g : SpecLibrary) (u : UrlLibrary) : Resources → Resources → Type 0 where
  puts_service :
      {a b : Resources} (s : ServiceSpec) (created : Bool)
      → put_service g u s a ≡ ok (created, b)
      → ResourceCall g u a b
  puts_pipe :
      {a b : Resources} (p : PipeSpec) (key grant : Bytes) (created : Bool)
      → put_pipe g p key grant a ≡ ok (created, b)
      → ResourceCall g u a b
  grants :
      {a b : Resources} (ref grant : Bytes)
      → set_pipe_publish_grant ref grant a ≡ ok b
      → ResourceCall g u a b
  deletes_pipe :
      {a b : Resources} (ref key : Bytes) → delete_pipe g ref a ≡ ok (key, b) → ResourceCall g u a b
  deletes_service :
      {a b : Resources} (ref : Bytes) → delete_service g ref a ≡ ok b → ResourceCall g u a b
  others : {a b : Resources} → b.services ≡ a.services → b.pipes ≡ a.pipes → ResourceCall g u a b

-- The call deletes nothing under the reference.
abbrev pub Spares :
    {g : SpecLibrary} {u : UrlLibrary} {a b : Resources} → Bytes → ResourceCall g u a b → Type 0
Spares ref (puts_service s created h) = Unit {0}
Spares ref (puts_pipe p key grant created h) = Unit {0}
Spares ref (grants r grant h) = Unit {0}
Spares ref (deletes_pipe r key h) = r ≢ ref
Spares ref (deletes_service r h) = r ≢ ref
Spares ref (others h k) = Unit {0}

-- A history of calls by any processes, none of which deletes what is under the reference.
pub data HistorySparing (g : SpecLibrary) (u : UrlLibrary) (ref : Bytes) (a : Resources)
    : Resources → Type 0 where
  no_calls : HistorySparing g u ref a a
  then_call :
      {b c : Resources}
      → HistorySparing g u ref a b
      → (call : ResourceCall g u b c) → Spares ref call
      → HistorySparing g u ref a c

-- What a grant leaves of a row.
abbrev pub SameDefinition : PipeRow → PipeRow → Type 0
SameDefinition v w =
    (w.spec ≡ v.spec) × (w.pipe_id ≡ v.pipe_id) × (w.owner_key_file ≡ v.owner_key_file)

abbrev regranted : Bytes → Bytes → PipeRow → PipeRow
regranted ref grant r = if same r.ref ref then record r { publish_grant = grant } else r

find_row-set_grant :
    (k ref grant : Bytes) (v : PipeRow) (rows : List PipeRow)
    → find_row pipe_key (k ∷ []) rows ≡ some v
    → find_row pipe_key (k ∷ []) (set_grant ref grant rows) ≡ some (regranted ref grant v)
unfolding find_row set_grant same_key
find_row-set_grant k ref grant v [] found = cc
find_row-set_grant k ref grant v (r ∷ rs) found = elim (Bool-cases (same r.ref ref)) [
  | inl hit ↦ ground (arith, find_row-set_grant k ref grant v rs)
  | inr miss ↦ ground (arith, find_row-set_grant k ref grant v rs)
]

abbrev FoundSame : Bytes → PipeRow → Resources → Type 0
FoundSame k v db = (w : PipeRow) × (find_pipe k db ≡ some w) × SameDefinition v w

FoundSame-set_grant :
    (k ref grant : Bytes) (v : PipeRow) (db : Resources)
    → find_pipe k db ≡ some v
    → FoundSame k v (record db { pipes = set_grant ref grant db.pipes })
FoundSame-set_grant k ref grant v db found = elim (Bool-cases (same v.ref ref)) [
  | inl hit ↦ (
    record v { publish_grant = grant },
    find_row-set_grant k ref grant v db.pipes found ∙ ap some (rw hit refl),
    (refl, refl, refl),
  )
  | inr miss ↦ (
    v,
    find_row-set_grant k ref grant v db.pipes found ∙ ap some (rw miss refl),
    (refl, refl, refl),
  )
]

module _ (g : SpecLibrary) (u : UrlLibrary) where
  module _ (k : Bytes) {a b : Resources} where
    find_service-call :
        (call : ResourceCall g u a b)
        → Spares k call
        → (v : ServiceRow) → find_service k a ≡ some v
        → find_service k b ≡ some v
    unfolding find_row same_key
    find_service-call (puts_service s created h) spared v found =
        elim (put_service-ok g u s created a b h).1 [
          | inl same_db ↦ ap (find_service k) same_db ∙ found
          | inr (spec_text, new, rows) ↦
              ap (find_row service_key (k ∷ [])) rows ∙ ground (arith, same_iff (to_string s.ref) k)
        ]
    find_service-call (puts_pipe p key grant created h) spared v found =
        ap (find_row service_key (k ∷ [])) (put_pipe-ok g u p key grant created a b h).0 ∙ found
    find_service-call (grants ref grant h) spared v found =
        ap (find_service k) (grant-ok g u ref grant a b h) ∙ found
    find_service-call (deletes_pipe ref key h) spared v found =
        ap (find_row service_key (k ∷ [])) (delete_pipe-ok g u ref key a b h).0 ∙ found
    find_service-call (deletes_service ref h) spared v found =
        ap (find_row service_key (k ∷ [])) (delete_service-ok g u ref a b h).1
        ∙ find_row-spared (λ (r : ServiceRow). r.ref) k ref a.services spared
        ∙ found
    find_service-call (others h i) spared v found = ap (find_row service_key (k ∷ [])) h ∙ found

    find_pipe-call :
        (call : ResourceCall g u a b)
        → Spares k call
        → (v : PipeRow) → find_pipe k a ≡ some v
        → FoundSame k v b
    unfolding find_row same_key
    find_pipe-call (puts_service s created h) spared v found = (
      v,
      ap (find_row pipe_key (k ∷ [])) (put_service-ok g u s created a b h).0 ∙ found,
      (refl, refl, refl),
    )
    find_pipe-call (puts_pipe p key grant created h) spared v found =
        elim (put_pipe-ok g u p key grant created a b h).1 [
          | inl kept ↦ (v, ap (find_row pipe_key (k ∷ [])) kept ∙ found, (refl, refl, refl))
          | inr (inl granted) ↦
              let (w, is, like) = FoundSame-set_grant k (to_string p.ref) grant v a found in
              (w, ap (find_row pipe_key (k ∷ [])) granted ∙ is, like)
          | inr (inr (spec_text, new, rows)) ↦ (
            v,
            ap (find_row pipe_key (k ∷ [])) rows ∙ ground (arith, same_iff (to_string p.ref) k),
            (refl, refl, refl),
          )
        ]
    find_pipe-call (grants ref grant h) spared v found =
        let (w, is, like) = FoundSame-set_grant k ref grant v a found in
        (w, ap (find_pipe k) (grant-ok g u ref grant a b h) ∙ is, like)
    find_pipe-call (deletes_pipe ref key h) spared v found = (
      v,
      ap (find_row pipe_key (k ∷ [])) (delete_pipe-ok g u ref key a b h).1
          ∙ find_row-spared (λ (r : PipeRow). r.ref) k ref a.pipes spared
          ∙ found,
      (refl, refl, refl),
    )
    find_pipe-call (deletes_service ref h) spared v found = (
      v,
      ap (find_row pipe_key (k ∷ [])) (delete_service-ok g u ref a b h).0 ∙ found,
      (refl, refl, refl),
    )
    find_pipe-call (others h i) spared v found =
        (v, ap (find_row pipe_key (k ∷ [])) i ∙ found, (refl, refl, refl))

    -- A call that spares a pipe spares what the pipe targets.
    Spares-target :
        (call : ResourceCall g u a b) (r : PipeRow) (p : PipeSpec)
        → Spares k call
        → find_pipe k a ≡ some r
        → g.unmarshal_pipe r.spec ≡ some p
        → Spares (to_string p.target) call
    Spares-target (puts_service s created h) r p spared found read = tt
    Spares-target (puts_pipe q key grant created h) r p spared found read = tt
    Spares-target (grants ref grant h) r p spared found read = tt
    Spares-target (deletes_pipe ref key h) r p spared found read = λ e.
        check_untargeted-found g u ref k r p b.pipes (delete_pipe-ok g u ref key a b h).2
          (ap (find_row pipe_key (k ∷ [])) (delete_pipe-ok g u ref key a b h).1
            ∙ find_row-spared (λ (r : PipeRow). r.ref) k ref a.pipes spared
            ∙ found)
          read (sym e)
    Spares-target (deletes_service ref h) r p spared found read = λ e.
        check_untargeted-found g u ref k r p a.pipes (delete_service-ok g u ref a b h).2 found read
          (sym e)
    Spares-target (others h i) r p spared found read = tt

  -- A pipe keeps its specification, its identifier and its owner's key as long as it is not deleted.
  pub find_pipe-kept :
      (k : Bytes) {a b : Resources} (v : PipeRow)
      → HistorySparing g u k a b
      → find_pipe k a ≡ some v
      → (w : PipeRow) × (find_pipe k b ≡ some w) × SameDefinition v w
  find_pipe-kept k v no_calls found = (v, found, (refl, refl, refl))
  find_pipe-kept k v (then_call past call spared) found =
      let (w, is, like) = find_pipe-kept k v past found in
      let (x, there, alike) = find_pipe-call k call spared w is in (x, there, ground arith)

  pub find_service-kept :
      (k : Bytes) {a b : Resources} (v : ServiceRow)
      → HistorySparing g u k a b
      → find_service k a ≡ some v
      → find_service k b ≡ some v
  find_service-kept k v no_calls found = found
  find_service-kept k v (then_call past call spared) found =
      find_service-call k call spared v (find_service-kept k v past found)

  -- A history that spares a pipe spares what the pipe targets.
  pub HistorySparing-target :
      (k : Bytes) {a b : Resources} (r : PipeRow) (p : PipeSpec)
      → find_pipe k a ≡ some r
      → g.unmarshal_pipe r.spec ≡ some p
      → HistorySparing g u k a b
      → HistorySparing g u (to_string p.target) a b
  HistorySparing-target k r p found read no_calls = no_calls
  HistorySparing-target k r p found read (then_call past call spared) =
      let (w, is, like) = find_pipe-kept k r past found in
      then_call (HistorySparing-target k r p found read past) call
        (Spares-target k call w p spared is (ap g.unmarshal_pipe like.0 ∙ read))
