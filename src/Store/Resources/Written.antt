-- ===== src/Store/Resources/Written.antt =====
-- internal/store/store.go: what a written definition is read as.
use tubo.Base.{
  ◌≡◌, ◌⊎◌, inl, inr, Bool, none, some, ◌∷◌, [], arith, Bytes, same_iff, same_refl, Option-cases,
  ok, same_key, find_row,
}
use tubo.Domain.Ref.{to_string}
use tubo.Domain.Model.{UrlLibrary, ServiceSpec, PipeSpec}
use tubo.Store.Resources.{
  SpecLibrary, Resources, ServiceRow, PipeRow, find_service, find_pipe, service_row, pipe_row,
  put_service, put_pipe,
}

-- The row of a service has the specification's text.
abbrev pub ServiceWritten : SpecLibrary → ServiceSpec → Resources → Type 0
ServiceWritten g s db =
    (r : ServiceRow) × (find_service (to_string s.ref) db ≡ some r)
    × (g.marshal_service s ≡ some r.spec)

abbrev pub PipeWritten : SpecLibrary → PipeSpec → Resources → Type 0
PipeWritten g p db =
    (r : PipeRow) × (find_pipe (to_string p.ref) db ≡ some r) × (g.marshal_pipe p ≡ some r.spec)

module _ (g : SpecLibrary) where
  pub put_service-ServiceWritten :
      (u : UrlLibrary) (s : ServiceSpec) (created : Bool) (a b : Resources)
      → put_service g u s a ≡ ok (created, b)
      → ServiceWritten g s b × (b.pipes ≡ a.pipes)
  unfolding put_service find_row same_key
  put_service-ServiceWritten u s created a b h =
      elim (Option-cases (find_service (to_string s.ref) a)) [
        | inl new ↦ elim (Option-cases (g.marshal_service s)) [
          | inl failed ↦ absurd (ground arith)
          | inr (spec_text, coded) ↦ (
            (service_row spec_text s, ground (arith, same_refl (to_string s.ref)), coded),
            ground arith,
          )
        ]
        | inr (r, old) ↦ elim (Option-cases (g.marshal_service s)) [
          | inl failed ↦ absurd (ground arith)
          | inr (spec_text, coded) ↦
              ((r, ground arith, ground (arith, same_iff r.spec spec_text)), ground arith)
        ]
      ]

  -- All of what a committed write of a service leaves: the tables as they were, or its row before them.
  pub put_service-rows :
      (u : UrlLibrary) (s : ServiceSpec) (created : Bool) (a b : Resources)
      → put_service g u s a ≡ ok (created, b)
      → (b ≡ a)
        ⊎ ((spec_text : Bytes) × (g.marshal_service s ≡ some spec_text)
            × (find_service (to_string s.ref) a ≡ none)
            × (b ≡ record a { services = service_row spec_text s ∷ a.services }))
  unfolding put_service
  put_service-rows u s created a b h = elim (Option-cases (find_service (to_string s.ref) a)) [
    | inl new ↦ elim (Option-cases (g.marshal_service s)) [
      | inl failed ↦ absurd (ground arith)
      | inr (spec_text, coded) ↦ inr (spec_text, coded, new, ground arith)
    ]
    | inr (r, old) ↦ inl (ground arith)
  ]

  pub put_pipe-PipeWritten :
      (p : PipeSpec) (key : Bytes) (created : Bool) (a b : Resources)
      → put_pipe g p key [] a ≡ ok (created, b)
      → PipeWritten g p b × (b.services ≡ a.services)
  unfolding put_pipe find_row same_key
  put_pipe-PipeWritten p key created a b h = elim (Option-cases (find_pipe (to_string p.ref) a)) [
    | inl new ↦ elim (Option-cases (g.marshal_pipe p)) [
      | inl failed ↦ absurd (ground arith)
      | inr (spec_text, coded) ↦ (
        (pipe_row spec_text p key [], ground (arith, same_refl (to_string p.ref)), coded),
        ground arith,
      )
    ]
    | inr (r, old) ↦ elim (Option-cases (g.marshal_pipe p)) [
      | inl failed ↦ absurd (ground arith)
      | inr (spec_text, coded) ↦
          ((r, ground arith, ground (arith, same_iff r.spec spec_text)), ground arith)
    ]
  ]
