-- ===== src/Store/Discovery/Deleted.antt =====
-- What is left of the discovered rows once a snapshot is written (internal/store/store.go).
use tubo.Base.{
  ℕ, ◌≡◌, refl, ◌∙◌, ◌⊎◌, inl, inr, true, false, ◌||◌, none, some, List, [], ◌∷◌, arith, Bytes,
  same, same_iff, any, if◌then◌else◌, Option-cases, delete_rows, key-find_row, IsKeyed,
  IsKeyed-delete_rows, find_row-delete_rows, any-delete_rows, any-deleted,
}
use tubo.Store.Discovery.Written.{At-contains, At}
use tubo.Store.Stamp.{text_le}
use tubo.Store.Discovery.{outdated_discovered, outside_snapshot, delete_outside}
use tubo.Store.Cache.{find_record, record_key, Cache, Record}
use tubo.Store.Records.{owned_locally}

module _ (scope : Bytes) (members : List Record) (now : ℕ) (c : Cache)
    (keyed : IsKeyed record_key c.records) where
  delete_outside-find :
      (sc pipe_id : Bytes)
      → find_record sc pipe_id (delete_outside scope members now c)
        ≡ elim (find_record sc pipe_id c) [
          | none ↦ none
          | some r ↦
              if outside_snapshot scope members r || outdated_discovered scope now r
              then none
              else some r
        ]
  unfolding delete_outside
  delete_outside-find sc pipe_id =
      find_row-delete_rows record_key (outdated_discovered scope now) (sc ∷ pipe_id ∷ [])
        (delete_rows (outside_snapshot scope members) c.records)
        (IsKeyed-delete_rows record_key (outside_snapshot scope members) c.records keyed)
      ∙ rw
          (find_row-delete_rows record_key (outside_snapshot scope members) (sc ∷ pipe_id ∷ [])
            c.records keyed)
          (elim (Option-cases (find_record sc pipe_id c)) [
            | inl e ↦ ground arith
            | inr (r, e) ↦ ground arith
          ])

  pub delete_outside-alone :
      (sc pipe_id : Bytes)
      → (same sc scope ≡ false) ⊎ (owned_locally (find_record sc pipe_id c) ≡ true)
      → find_record sc pipe_id (delete_outside scope members now c) ≡ find_record sc pipe_id c
  delete_outside-alone sc pipe_id alone = elim (Option-cases (find_record sc pipe_id c)) [
    | inl e ↦ rw (delete_outside-find sc pipe_id, e) refl
    | inr (r, e) ↦
        let own : r.scope ≡ sc = scope_of r e in ground (arith, delete_outside-find sc pipe_id)
  ]
    where
      scope_of : (r : Record) → find_record sc pipe_id c ≡ some r → r.scope ≡ sc
      scope_of r e = ground (arith, key-find_row record_key (sc ∷ pipe_id ∷ []) c.records r e)

  -- A row of a member goes only where it is over.
  pub delete_outside-member :
      (m w : Record)
      → m.scope ≡ scope
      → At m members
      → find_record m.scope m.pipe_id c ≡ some w
      → w.discovered ≡ true
      → find_record m.scope m.pipe_id (delete_outside scope members now c)
        ≡ (if text_le w.expires_at now then none else some w)
  delete_outside-member m w own there at cached =
      let keys : record_key w ≡ m.scope ∷ m.pipe_id ∷ [] =
        key-find_row record_key (m.scope ∷ m.pipe_id ∷ []) c.records w at in
      ground (
        arith,
        delete_outside-find m.scope m.pipe_id,
        At-contains m members there,
        same_iff w.scope scope,
      )

  pub delete_outside-gone :
      any (outside_snapshot scope members) (delete_outside scope members now c).records ≡ false
  unfolding delete_outside
  delete_outside-gone =
      any-delete_rows (outside_snapshot scope members) (outdated_discovered scope now)
        (delete_rows (outside_snapshot scope members) c.records)
        (any-deleted (outside_snapshot scope members) (outside_snapshot scope members) c.records
          (λ r e. e))

  pub delete_outside-IsKeyed : IsKeyed record_key (delete_outside scope members now c).records
  unfolding delete_outside
  delete_outside-IsKeyed =
      IsKeyed-delete_rows record_key (outdated_discovered scope now)
        (delete_rows (outside_snapshot scope members) c.records)
        (IsKeyed-delete_rows record_key (outside_snapshot scope members) c.records keyed)

  pub delete_outside-over :
      any (outdated_discovered scope now) (delete_outside scope members now c).records ≡ false
  unfolding delete_outside
  delete_outside-over =
      any-deleted (outdated_discovered scope now) (outdated_discovered scope now)
        (delete_rows (outside_snapshot scope members) c.records) (λ r e. e)
