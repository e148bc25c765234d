-- ===== src/Domain/Graph/Walks.antt =====
-- A path as a relation, and what the loop of internal/domain/graph.go finds of it.
use tubo.Base.{
  ℕ, zero, suc, ◌≤◌, ◌≡◌, sym, subst, ◌∙◌, ◌↔◌, ◌⊎◌, inl, inr, false, some, List, [], ◌∷◌, ◌++◌,
  arith, Bytes, same_iff, contains_string, length, ok, Result-cases,
}
use mathlib.Core.List.{append_assoc}
use tubo.Domain.Ref.{Ref, require_kind, kind_service, kind_pipe, to_string}
use tubo.Domain.Model.{UrlLibrary, ServiceSpec, PipeSpec, validate_service, validate_pipe}
use tubo.Domain.Graph.{
  Loaders, LogicalPath, finish_path, load_hop, resolve_from, resolve_logical_path, hop_budget,
}

module _ (u : UrlLibrary) (l : Loaders) where
  -- From `c` the pipes `cs` are entered one after the other; the loader gives the specifications
  -- whose references are `ps`, each is valid, and the last one targets the service `t`.
  pub data Walk : Ref → List Ref → List Ref → Ref → Type 0 where
    last :
        {c : Ref} (p : PipeSpec) (s : ServiceSpec)
        → l.load_pipe c ≡ some p
        → validate_pipe p ≡ ok tt
        → p.target.kind ≡ kind_service
        → l.load_service p.target ≡ some s
        → validate_service u s ≡ ok tt
        → Walk c (c ∷ []) (p.ref ∷ []) s.ref
    hop :
        {c : Ref} {cs ps : List Ref} {t : Ref} (p : PipeSpec)
        → l.load_pipe c ≡ some p
        → validate_pipe p ≡ ok tt
        → p.target.kind ≡ kind_pipe
        → Walk p.target cs ps t
        → Walk c (c ∷ cs) (p.ref ∷ ps) t

-- No reference of the list has its text among those seen, nor among the earlier ones.
abbrev pub Fresh : List Bytes → List Ref → Type 0
Fresh seen [] = Unit {0}
Fresh seen (c ∷ cs) = (contains_string (to_string c) seen ≡ false) × Fresh (to_string c ∷ seen) cs

module _ (u : UrlLibrary) (l : Loaders) where
  load_hop-ok :
      (seen : List Bytes) (c : Ref) (p : PipeSpec)
      → load_hop u l seen c ≡ ok p
      → (contains_string (to_string c) seen ≡ false)
        × (l.load_pipe c ≡ some p)
        × (validate_pipe p ≡ ok tt)
  unfolding load_hop
  load_hop-ok seen c p h = ground arith

  load_hop-of_valid :
      (seen : List Bytes) (c : Ref) (p : PipeSpec)
      → contains_string (to_string c) seen ≡ false
      → l.load_pipe c ≡ some p
      → validate_pipe p ≡ ok tt
      → load_hop u l seen c ≡ ok p
  unfolding load_hop
  load_hop-of_valid seen c p h = ground arith

  finish_path-ok :
      (pipes : List Ref) (target : Ref) (r : LogicalPath)
      → finish_path u l pipes target ≡ ok r
      → (s : ServiceSpec) × (l.load_service target ≡ some s)
        × (validate_service u s ≡ ok tt)
        × (r.pipes ≡ pipes)
        × (r.terminal ≡ s.ref)
  unfolding finish_path
  finish_path-ok pipes target r h = ground arith

  finish_path-of_valid :
      (pipes : List Ref) (target : Ref) (s : ServiceSpec)
      → l.load_service target ≡ some s
      → validate_service u s ≡ ok tt
      → finish_path u l pipes target ≡ ok (record { pipes = pipes; terminal = s.ref })
  unfolding finish_path
  finish_path-of_valid pipes target s h k = ground arith

  -- What a successful resolution has found.
  abbrev pub Found : ℕ → List Bytes → List Ref → Ref → LogicalPath → Type 0
  Found hops seen acc c r =
      (cs : List Ref) × (ps : List Ref) × (r.pipes ≡ acc ++ ps)
      × Walk u l c cs ps r.terminal
      × Fresh seen cs
      × (length cs ≤ hops)

  resolve_from-step :
      (hops : ℕ) (seen : List Bytes) (acc : List Ref) (c : Ref) (r : LogicalPath)
      → resolve_from u l (suc hops) seen acc c ≡ ok r
      → (p : PipeSpec) × (load_hop u l seen c ≡ ok p)
        × ((p.target.kind ≡ kind_pipe)
              × (resolve_from u l hops (to_string c ∷ seen) (acc ++ (p.ref ∷ [])) p.target ≡ ok r)
            ⊎ (p.target.kind ≡ kind_service)
              × (finish_path u l (acc ++ (p.ref ∷ [])) p.target ≡ ok r))
  unfolding resolve_from
  resolve_from-step hops seen acc c r h = elim (Result-cases (load_hop u l seen c)) [
    | inr (e, failed) ↦ absurd (ground arith)
    | inl (p, loaded) ↦ (
      p,
      loaded,
      ground (arith, same_iff p.target.kind kind_pipe, same_iff p.target.kind kind_service),
    )
  ]

  -- A path that the loop returns is one that the specifications have, entered without repetition.
  resolve_from-Found :
      (hops : ℕ) (seen : List Bytes) (acc : List Ref) (c : Ref) (r : LogicalPath)
      → resolve_from u l hops seen acc c ≡ ok r
      → Found hops seen acc c r
  unfolding resolve_from
  resolve_from-Found zero seen acc c r h = cc
  resolve_from-Found (suc hops) seen acc c r h =
      let (p, loaded, next) = resolve_from-step hops seen acc c r h in
      let (new, has_spec, valid) = load_hop-ok seen c p loaded in
      elim next [
        | inl (onward, rest) ↦
            let (cs, ps, shape, walk, fresh, short) =
              resolve_from-Found hops (to_string c ∷ seen) (acc ++ (p.ref ∷ [])) p.target r rest in
            (
              c ∷ cs,
              p.ref ∷ ps,
              shape ∙ append_assoc acc (p.ref ∷ []) ps,
              hop p has_spec valid onward walk,
              (new, fresh),
              omega arith,
            )
        | inr (ends, done) ↦
            let (s, has_service, serves, shape, at_end) =
              finish_path-ok (acc ++ (p.ref ∷ [])) p.target r done in
            (
              c ∷ [],
              p.ref ∷ [],
              shape,
              subst (Walk u l c (c ∷ []) (p.ref ∷ [])) (sym at_end)
                  (last p s has_spec valid ends has_service serves),
              (new, tt),
              omega arith,
            )
      ]

  -- The loop follows any such path to its end when the hops suffice.
  resolve_from-of_Walk :
      {c : Ref} {cs ps : List Ref} {t : Ref} (hops : ℕ) (seen : List Bytes) (acc : List Ref)
      → Walk u l c cs ps t
      → Fresh seen cs
      → length cs ≤ hops
      → resolve_from u l hops seen acc c ≡ ok (record { pipes = acc ++ ps; terminal = t })
  unfolding resolve_from
  resolve_from-of_Walk zero seen acc (last p s a b e f g) (new, _) m = absurd (omega arith)
  resolve_from-of_Walk zero seen acc (hop p a b e w) (new, fresh) m = absurd (omega arith)
  resolve_from-of_Walk {c} (suc hops) seen acc (last p s a b e f g) (new, _) m = ground (
    arith,
    load_hop-of_valid seen c p new a b,
    same_iff p.target.kind kind_service,
    same_iff p.target.kind kind_pipe,
    finish_path-of_valid (acc ++ (p.ref ∷ [])) p.target s f g,
  )
  resolve_from-of_Walk {c} (suc hops) seen acc (hop {ps = ps} p a b e w) (new, fresh) m = ground (
    arith,
    load_hop-of_valid seen c p new a b,
    same_iff p.target.kind kind_pipe,
    resolve_from-of_Walk hops (to_string c ∷ seen) (acc ++ (p.ref ∷ [])) w fresh,
    append_assoc acc (p.ref ∷ []) ps,
  )

  -- `ResolveLogicalPath` succeeds with a path exactly when the start is a pipe reference and the
  -- loaded specifications have that path, entered without a repetition and within the hop budget.
  pub resolve_logical_path_iff :
      (start : Ref) (max_hops : ℕ) (r : LogicalPath)
      → (resolve_logical_path u l start max_hops ≡ ok r) ↔ (
          (require_kind start kind_pipe ≡ ok tt)
          × ((cs : List Ref) × Walk u l start cs r.pipes r.terminal
              × Fresh [] cs
              × (length cs ≤ hop_budget max_hops)))
  unfolding resolve_logical_path
  resolve_logical_path_iff start max_hops r = (
    λ h.
        let run : resolve_from u l (hop_budget max_hops) [] [] start ≡ ok r = ground arith in
        let (cs, ps, shape, walk, fresh, short) =
          resolve_from-Found (hop_budget max_hops) [] [] start r run in
        (
          ground arith,
          (cs, subst (λ ps. Walk u l start cs ps r.terminal) (sym shape) walk, fresh, short),
        ),
    λ h.
        let (kind, found) = h in
        let (cs, walk, fresh, short) = found in
        ground (arith, resolve_from-of_Walk (hop_budget max_hops) [] [] walk fresh short),
  )
