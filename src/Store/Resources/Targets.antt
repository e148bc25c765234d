-- ===== src/Store/Resources/Targets.antt =====
-- internal/store/store.go: when a definition is written, and when it can be deleted.
use tubo.Base.{
  ◌≡◌, ◌≢◌, refl, ◌↔◌, inl, inr, true, some, List, [], ◌∷◌, arith, Bytes, same, same_iff, All,
  Bool-cases, Option-cases, ok, delete_rows,
}
use tubo.Domain.Ref.{to_string}
use tubo.Domain.Model.{PipeSpec}
use tubo.Store.Resources.{
  SpecLibrary, Resources, ServiceRow, PipeRow, find_service, check_untargeted, delete_service,
  delete_pipe, find_pipe, SessionRow,
}

-- The row's specification can be read and targets something else.
abbrev pub TargetsElse : SpecLibrary → Bytes → PipeRow → Type 0
TargetsElse g ref r =
    (p : PipeSpec) × (g.unmarshal_pipe r.spec ≡ some p) × (to_string p.target ≢ ref)

module _ (g : SpecLibrary) (ref : Bytes) where
  check_untargeted-ok :
      (rows : List PipeRow) → check_untargeted g ref rows ≡ ok tt → All (TargetsElse g ref) rows
  unfolding check_untargeted
  check_untargeted-ok [] h = tt
  check_untargeted-ok (r ∷ rs) h = elim (Option-cases (g.unmarshal_pipe r.spec)) [
    | inl failed ↦ absurd (ground arith)
    | inr (p, read) ↦ elim (Bool-cases (same (to_string p.target) ref)) [
      | inl aims ↦ absurd (ground arith)
      | inr passes ↦ (
        (p, read, ground (arith, same_iff (to_string p.target) ref)),
        check_untargeted-ok rs (ground arith),
      )
    ]
  ]

  check_untargeted-of_All :
      (rows : List PipeRow) → All (TargetsElse g ref) rows → check_untargeted g ref rows ≡ ok tt
  unfolding check_untargeted
  check_untargeted-of_All [] h = refl
  check_untargeted-of_All (r ∷ rs) ((p, read, other), rest) =
      ground (arith, same_iff (to_string p.target) ref, check_untargeted-of_All rs rest)

  -- A service is deleted exactly when the database answers, the service is there, and every pipe can
  -- be read and targets something else; then its row alone is gone.
  pub delete_service_iff :
      (a b : Resources)
      → (delete_service g ref a ≡ ok b) ↔ (
          (a.available ≡ true)
          × ((r : ServiceRow) × (find_service ref a ≡ some r))
          × All (TargetsElse g ref) a.pipes
          × (b ≡ record a {
            services = delete_rows (λ (r : ServiceRow). same r.ref ref) a.services;
          }))
  unfolding delete_service
  delete_service_iff a b = (
    λ h. (
      ground arith,
      elim (Option-cases (find_service ref a)) [
        | inl missing ↦ absurd (ground arith)
        | inr found ↦ found
      ],
      check_untargeted-ok a.pipes (ground arith),
      ground arith,
    ),
    λ h.
        let (up, found, elsewhere, result) = h in
        let (r, there) = found in
        let free = check_untargeted-of_All a.pipes elsewhere in ground arith,
  )

  -- A pipe is deleted exactly when the database answers, the pipe is there, and every other pipe can
  -- be read and targets something else; then its row and its sessions are gone, and the answer is
  -- the owner's key file.
  pub delete_pipe_iff :
      (key : Bytes) (a b : Resources)
      → (delete_pipe g ref a ≡ ok (key, b)) ↔ (
          (a.available ≡ true)
          × ((r : PipeRow) × (find_pipe ref a ≡ some r) × (r.owner_key_file ≡ key))
          × All (TargetsElse g ref) (delete_rows (λ (r : PipeRow). same r.ref ref) a.pipes)
          × (b ≡ record a {
            sessions = delete_rows (λ (s : SessionRow). same s.pipe_ref ref) a.sessions;
            pipes = delete_rows (λ (r : PipeRow). same r.ref ref) a.pipes;
          }))
  unfolding delete_pipe
  delete_pipe_iff key a b = (
    λ h. (
      ground arith,
      elim (Option-cases (find_pipe ref a)) [
        | inl missing ↦ absurd (ground arith)
        | inr (r, found) ↦ (r, found, ground arith)
      ],
      check_untargeted-ok (delete_rows (λ (r : PipeRow). same r.ref ref) a.pipes) (ground arith),
      ground arith,
    ),
    λ h.
        let (up, found, elsewhere, result) = h in
        let (r, there, own) = found in
        let free =
          check_untargeted-of_All (delete_rows (λ (r : PipeRow). same r.ref ref) a.pipes)
            elsewhere in
        ground arith,
  )
