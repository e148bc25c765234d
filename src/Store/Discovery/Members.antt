-- ===== src/Store/Discovery/Members.antt =====
-- The records of a snapshot of internal/store/store.go, written one by one.
use tubo.Base.{
  ℕ, ◌<◌, ◌≡◌, refl, sym, subst, ◌∙◌, ◌⊎◌, inl, inr, true, false, Option, none, some, [], ◌∷◌,
  arith, Bytes, same_iff, if◌then◌else◌, Bool-cases, Option-cases, ok, same_key, same_key_iff,
  find_row, find_row-upsert_row, IsKeyed, IsKeyed-upsert_row,
}
use tubo.Store.Cache.{merged-replace, replace, record_key, find_record, Cache, Record}
use tubo.Store.Records.{
  owned_locally, write_record, put_discovered_record_tx, validate_stored_record, put_record_tx,
}

pub put_record_tx-ok :
    (v : Record) (now : ℕ) (c c' : Cache)
    → put_record_tx v now c ≡ ok c'
    → (now < v.expires_at)
      × (((c' ≡ c)
            × ((r : Record) × (find_record v.scope v.pipe_id c ≡ some r)
                × (r.sequence ≡ v.sequence)
                × (r.payload ≡ v.payload)))
          ⊎ (c' ≡ write_record v c))
unfolding put_record_tx validate_stored_record
put_record_tx-ok v now c c' h = elim (Option-cases (find_record v.scope v.pipe_id c)) [
  | inl e ↦ ground arith
  | inr (r, e) ↦ ground (arith, same_iff r.payload v.payload)
]

-- The row of a member: discovered, with the member's sequence and payload.
abbrev pub Shows : Record → Option Record → Type 0
Shows m none = ⊥
Shows m (some r) = (r.discovered ≡ true) × (r.sequence ≡ m.sequence) × (r.payload ≡ m.payload)

pub write_record-find :
    (v : Record) (scope pipe_id : Bytes) (c : Cache)
    → find_record scope pipe_id (write_record v c) ≡ (
        if same_key (record_key v) (scope ∷ pipe_id ∷ [])
        then some v
        else find_record scope pipe_id c)
write_record-find v scope pipe_id c =
    find_row-upsert_row record_key replace v (scope ∷ pipe_id ∷ []) c.records (λ _. refl)
    ∙ ground (arith, merged-replace v (find_row record_key (record_key v) c.records))

module _ (v : Record) (now : ℕ) (c c' : Cache)
    (put : put_discovered_record_tx v now c ≡ ok c') where
  pub put_discovered-cases :
      ((c' ≡ c) × (owned_locally (find_record v.scope v.pipe_id c) ≡ true))
      ⊎ ((c' ≡ c)
          × (owned_locally (find_record v.scope v.pipe_id c) ≡ false)
          × Shows v (find_record v.scope v.pipe_id c))
      ⊎ ((c' ≡ write_record (record v { discovered = true }) c)
          × (owned_locally (find_record v.scope v.pipe_id c) ≡ false))
  unfolding put_discovered_record_tx
  put_discovered-cases = elim (Option-cases (find_record v.scope v.pipe_id c)) [
    | inl e ↦ inr (inr (ground (arith, put_record_tx-ok (record v { discovered = true }) now c c')))
    | inr (r, e) ↦ elim (Bool-cases r.discovered) [
      | inl cached ↦
          elim (put_record_tx-ok (record v { discovered = true }) now c c' (ground arith)).1 [
            | inl (unchanged, (old, at, seq, pay)) ↦
                inr (inl (unchanged, ground arith, rw at (ground arith, seq, pay)))
            | inr written ↦ inr (inr (written, ground arith))
          ]
      | inr local ↦ inl (ground arith)
    ]
  ]

  pub put_discovered-IsKeyed : IsKeyed record_key c.records → IsKeyed record_key c'.records
  put_discovered-IsKeyed keyed = elim put_discovered-cases [
    | inl (e, _) ↦ ground arith
    | inr (inl (e, _, _)) ↦ ground arith
    | inr (inr (e, _)) ↦
        subst (λ x. IsKeyed record_key x.records) (sym e)
          (IsKeyed-upsert_row record_key replace (record v { discovered = true }) c.records
            (λ _. refl) keyed)
  ]

  -- No other key is touched, and no key that a local row owns.
  pub put_discovered-kept :
      (scope pipe_id : Bytes)
      → (same_key (record_key v) (scope ∷ pipe_id ∷ []) ≡ false)
        ⊎ (owned_locally (find_record scope pipe_id c) ≡ true)
      → find_record scope pipe_id c' ≡ find_record scope pipe_id c
  put_discovered-kept scope pipe_id h = elim put_discovered-cases [
    | inl (e, _) ↦ ground arith
    | inr (inl (e, _, _)) ↦ ground arith
    | inr (inr (e, free)) ↦ rw e (
        ground (
          arith,
          write_record-find (record v { discovered = true }) scope pipe_id c,
          same_key_iff (record_key v) (scope ∷ pipe_id ∷ []),
        ))
  ]
