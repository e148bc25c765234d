-- ===== src/Store/Resources/Effects.antt =====
-- What a committed call of internal/store/store.go leaves of the definitions.
use tubo.Base.{
  ◌≡◌, ◌≢◌, ◌⊎◌, inl, inr, Bool, is_empty, some, none, List, [], ◌∷◌, arith, Bytes, same, same_iff,
  Bool-cases, Option-cases, ok, same_key, find_row, delete_rows,
}
use tubo.Domain.Ref.{to_string}
use tubo.Domain.Model.{UrlLibrary, ServiceSpec, PipeSpec}
use tubo.Store.Resources.{
  SpecLibrary, Resources, ServiceRow, PipeRow, pipe_key, find_service, find_pipe, service_row,
  pipe_row, put_service, put_pipe, set_grant, set_pipe_publish_grant, check_untargeted, delete_pipe,
  delete_service,
}

module _ (g : SpecLibrary) (u : UrlLibrary) where
  -- What a committed write leaves of the tables.
  pub put_service-ok :
      (s : ServiceSpec) (created : Bool) (a b : Resources)
      → put_service g u s a ≡ ok (created, b)
      → (b.pipes ≡ a.pipes)
        × ((b ≡ a)
            ⊎ ((spec_text : Bytes) × (find_service (to_string s.ref) a ≡ none)
                × (b.services ≡ service_row spec_text s ∷ a.services)))
  unfolding put_service
  put_service-ok s created a b h = elim (Option-cases (find_service (to_string s.ref) a)) [
    | inl new ↦ elim (Option-cases (g.marshal_service s)) [
      | inl failed ↦ ground arith
      | inr (spec_text, coded) ↦ (ground arith, inr (spec_text, new, ground arith))
    ]
    | inr (r, old) ↦ (ground arith, inl (ground arith))
  ]

  pub put_pipe-ok :
      (p : PipeSpec) (key grant : Bytes) (created : Bool) (a b : Resources)
      → put_pipe g p key grant a ≡ ok (created, b)
      → (b.services ≡ a.services)
        × ((b.pipes ≡ a.pipes)
            ⊎ (b.pipes ≡ set_grant (to_string p.ref) grant a.pipes)
            ⊎ ((spec_text : Bytes) × (find_pipe (to_string p.ref) a ≡ none)
                × (b.pipes ≡ pipe_row spec_text p key grant ∷ a.pipes)))
  unfolding put_pipe
  put_pipe-ok p key grant created a b h = elim (Option-cases (find_pipe (to_string p.ref) a)) [
    | inl new ↦ elim (Option-cases (g.marshal_pipe p)) [
      | inl failed ↦ ground arith
      | inr (spec_text, coded) ↦ (ground arith, inr (inr (spec_text, new, ground arith)))
    ]
    | inr (r, old) ↦ elim (Bool-cases (is_empty grant)) [
      | inl none_given ↦ (ground arith, inl (ground arith))
      | inr given ↦ (ground arith, inr (inl (ground arith)))
    ]
  ]

  pub grant-ok :
      (ref grant : Bytes) (a b : Resources)
      → set_pipe_publish_grant ref grant a ≡ ok b
      → b ≡ record a { pipes = set_grant ref grant a.pipes }
  unfolding set_pipe_publish_grant
  grant-ok ref grant a b h = ground arith

  pub delete_pipe-ok :
      (ref key : Bytes) (a b : Resources)
      → delete_pipe g ref a ≡ ok (key, b)
      → (b.services ≡ a.services)
        × (b.pipes ≡ delete_rows (λ (r : PipeRow). same r.ref ref) a.pipes)
        × (check_untargeted g ref b.pipes ≡ ok tt)
  unfolding delete_pipe
  delete_pipe-ok ref key a b h = ground arith

  pub delete_service-ok :
      (ref : Bytes) (a b : Resources)
      → delete_service g ref a ≡ ok b
      → (b.pipes ≡ a.pipes)
        × (b.services ≡ delete_rows (λ (r : ServiceRow). same r.ref ref) a.services)
        × (check_untargeted g ref a.pipes ≡ ok tt)
  unfolding delete_service
  delete_service-ok ref a b h = ground arith

  -- A pipe that is there, and whose specification can be read, is not a target of what is deleted.
  pub check_untargeted-found :
      (ref k : Bytes) (r : PipeRow) (p : PipeSpec) (rows : List PipeRow)
      → check_untargeted g ref rows ≡ ok tt
      → find_row pipe_key (k ∷ []) rows ≡ some r
      → g.unmarshal_pipe r.spec ≡ some p
      → to_string p.target ≢ ref
  unfolding check_untargeted find_row same_key
  check_untargeted-found ref k r p [] h found read = cc
  check_untargeted-found ref k r p (x ∷ rs) h found read = elim (Bool-cases (same x.ref k)) [
    | inl hit ↦ ground (arith, same_iff (to_string p.target) ref)
    | inr miss ↦ elim (Option-cases (g.unmarshal_pipe x.spec)) [
      | inl failed ↦ ground arith
      | inr (q, coded) ↦ elim (Bool-cases (same (to_string q.target) ref)) [
        | inl aims ↦ ground arith
        | inr passes ↦ check_untargeted-found ref k r p rs (ground arith) (ground arith) read
      ]
    ]
  ]
