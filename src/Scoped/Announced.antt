-- ===== src/Scoped/Announced.antt =====
-- The records that internal/runtime/authority.go takes in.
use tubo.Base.{
  ℕ, ◌+◌, ◌<◌, ◌≡◌, refl, sym, ap, subst, ◌∙◌, inl, inr, true, some, [], ◌∷◌, arith, Bytes, lit,
  same, same_iff, Option-cases, ok, Result-cases, bind-ok, same_key_refl, find_row-upsert_row,
}
use tubo.Store.Cache.{
  replace, snapshot_key, SnapshotRow, record_key, find_record, find_snapshot, Cache, Record,
}
use tubo.Scoped.Server.{
  authenticate, AuthorityResponse, announce, own_public, AuthorityState, announced_record, Draws,
  Readings, AuthorityRequest, AuthorityHandler,
}
use tubo.Store.Records.{
  put_authoritative_record, write_snapshot, put_record_tx, advance_authority_snapshot_tx,
}
use tubo.Scoped.Process.{process, announcing, dispatch}
use tubo.Scoped.Tokens.{decode_token}
use tubo.Scoped.Records.{encode_record, verify_record, parse_record}
use tubo.Scoped.{scope_text, ScopedLibrary, Token, PipeRecord}
use tubo.Store.Discovery.Members.{write_record-find, put_record_tx-ok}
use tubo.Store.Discovery.Counters.{served_generation}

abbrev pub announce_operation : Bytes
announce_operation = lit "records.announce"

dispatch-announce :
    (g : ScopedLibrary) (h : AuthorityHandler) (req : AuthorityRequest) (draws : Draws)
    (at : Readings) (s : AuthorityState) (invite : Token)
    → req.operation ≡ announce_operation
    → dispatch g h invite req draws at s ≡ announcing g h invite req at s
unfolding dispatch same
dispatch-announce g h req draws at s invite e = rw e refl

-- The row of a record that is put, and the counter that its announcement moves.
put_record_tx-shows :
    (v : Record) (now : ℕ) (c c' : Cache)
    → put_record_tx v now c ≡ ok c'
    → ((row : Record) × (find_record v.scope v.pipe_id c' ≡ some row)
        × (row.sequence ≡ v.sequence)
        × (row.payload ≡ v.payload))
      × (c'.snapshots ≡ c.snapshots)
put_record_tx-shows v now c c' h = elim (put_record_tx-ok v now c c' h).1 [
  | inl (unchanged, (row, there, seq, pay)) ↦ ((row, ground arith, seq, pay), ground arith)
  | inr written ↦ (
    (
      v,
      rw (written, write_record-find v v.scope v.pipe_id c, same_key_refl (record_key v)) refl,
      refl,
      refl,
    ),
    ground arith,
  )
]

find_snapshot-write :
    (row : SnapshotRow) (c : Cache) → find_snapshot row.scope (write_snapshot row c) ≡ some row
find_snapshot-write row c =
    find_row-upsert_row snapshot_key replace row (row.scope ∷ []) c.snapshots (λ _. refl)
    ∙ elim (Option-cases (find_snapshot row.scope c)) [
      | inl e ↦ rw (same_key_refl (snapshot_key row), e) refl
      | inr (r, e) ↦ rw (same_key_refl (snapshot_key row), e) refl
    ]

advance-moves :
    (scope : Bytes) (c c' : Cache)
    → advance_authority_snapshot_tx scope c ≡ ok c'
    → (served_generation (find_snapshot scope c) < served_generation (find_snapshot scope c'))
      × (c'.records ≡ c.records)
unfolding advance_authority_snapshot_tx
advance-moves scope c c' h = elim (Option-cases (find_snapshot scope c)) [
  | inl e ↦
      let row : SnapshotRow = record { scope = scope; generation = 1; high_water = 1 } in
      let after : c' ≡ write_snapshot row c = ground arith in
      (rw (e, after, find_snapshot-write row c) (omega arith), ground arith)
  | inr (s, e) ↦
      let row : SnapshotRow = record {
        scope = scope;
        generation = s.generation + 1;
        high_water = s.high_water + 1;
      } in
      let after : c' ≡ write_snapshot row c = ground arith in
      (rw (e, after, find_snapshot-write row c) (omega arith), ground arith)
]

put_authoritative_record-shows :
    (v : Record) (now : ℕ) (c c' : Cache) (scope pipe_id : Bytes)
    → put_authoritative_record v now c ≡ ok c'
    → v.scope ≡ scope
    → v.pipe_id ≡ pipe_id
    → ((row : Record) × (find_record scope pipe_id c' ≡ some row)
        × (row.sequence ≡ v.sequence)
        × (row.payload ≡ v.payload))
      × (served_generation (find_snapshot scope c) < served_generation (find_snapshot scope c'))
unfolding put_authoritative_record
put_authoritative_record-shows v now c c' scope pipe_id h in_scope of_pipe =
    let (mid, first, rest) =
      bind-ok {result = c'} (put_record_tx v now c) (λ x. advance_authority_snapshot_tx v.scope x)
        (ground arith) in
    let ((row, there, seq, pay), snapshots_kept) = put_record_tx-shows v now c mid first in
    let (moved, records_kept) = advance-moves v.scope mid c' rest in
    let kept : find_record v.scope v.pipe_id c' ≡ some row = ground arith in
    let grown : served_generation (find_snapshot v.scope c)
        < served_generation (find_snapshot v.scope c') =
      rw snapshots_kept at moved in
    (
      (
        row,
        subst (λ p. find_record scope p c' ≡ some row) of_pipe
            (subst (λ sc. find_record sc v.pipe_id c' ≡ some row) in_scope kept),
        seq,
        pay,
      ),
      subst (λ sc. served_generation (find_snapshot sc c) < served_generation (find_snapshot sc c'))
          in_scope grown,
    )

module _ (g : ScopedLibrary) (h : AuthorityHandler) (req : AuthorityRequest) (at : Readings)
    (invite : Token) where
  -- What the record of an announcement that is stored was.
  abbrev pub IsAnnounced : PipeRecord → Type 0
  IsAnnounced r =
      (parse_record g req.body ≡ ok r)
      × (verify_record g r (own_public g h) h.scope at.record_checked ≡ ok tt)
      × (r.pipe_id ≡ req.pipe_id)
      × ((grant : Token) × (decode_token g r.publish_grant ≡ ok grant)
          × (grant.subject ≡ req.client_public))

  announced_record-ok :
      (v : Record)
      → announced_record g h invite req at ≡ ok v
      → (r : PipeRecord) × IsAnnounced r
        × (v.scope ≡ scope_text h.scope)
        × (v.pipe_id ≡ r.pipe_id)
        × (v.sequence ≡ r.sequence)
        × (encode_record g r ≡ ok v.payload)
  unfolding announced_record
  announced_record-ok v e = elim (Result-cases (parse_record g req.body)) [
    | inl (r, read) ↦ elim (Result-cases (decode_token g r.publish_grant)) [
      | inl (grant, granted) ↦ elim (Result-cases (encode_record g r)) [
        | inl (payload, written) ↦ (
          r,
          (
            read,
            ground arith,
            ground (arith, same_iff r.pipe_id req.pipe_id),
            (grant, granted, ground (arith, same_iff grant.subject req.client_public)),
          ),
          ground arith,
          ground arith,
          ground arith,
          ground arith,
        )
        | inr (failure, unwritten) ↦ ground arith
      ]
      | inr (failure, no_grant) ↦ ground arith
    ]
    | inr (failure, unread) ↦ ground arith
  ]

  announcing-ok :
      (s s' : AuthorityState) (a : AuthorityResponse)
      → announcing g h invite req at s ≡ (ok a, s')
      → (v : Record) × (announced_record g h invite req at ≡ ok v)
        × (put_authoritative_record v at.stored s.cache ≡ ok s'.cache)
        × (s'.db ≡ s.db)
  unfolding announcing announce
  announcing-ok s s' a e = elim (Result-cases (announced_record g h invite req at)) [
    | inl (v, announced) ↦ elim (Result-cases (put_authoritative_record v at.stored s.cache)) [
      | inl (next, put) ↦ (v, announced, ground arith, ground arith)
      | inr (failure, refused) ↦ ground arith
    ]
    | inr (failure, refused) ↦ ground arith
  ]

  announced_record-shows :
      (v : Record) (c c' : Cache)
      → announced_record g h invite req at ≡ ok v
      → put_authoritative_record v at.stored c ≡ ok c'
      → (r : PipeRecord) × IsAnnounced r
        × ((row : Record) × (find_record (scope_text h.scope) req.pipe_id c' ≡ some row)
            × (row.sequence ≡ r.sequence)
            × (encode_record g r ≡ ok row.payload))
        × (served_generation (find_snapshot (scope_text h.scope) c)
            < served_generation (find_snapshot (scope_text h.scope) c'))
  announced_record-shows v c c' announced put =
      let (r, was, in_scope, of_pipe, seq, encoded) = announced_record-ok v announced in
      let ((row, there, row_seq, row_pay), growth) =
        put_authoritative_record-shows v at.stored c c' (scope_text h.scope) req.pipe_id put
          in_scope (of_pipe ∙ was.2) in
      (r, was, (row, there, row_seq ∙ seq, encoded ∙ ap ok (sym row_pay)), growth)

  -- An announcement is answered only for a record that verifies for the authority's scope, is of the
  -- requested pipe and carries a publish grant of the requesting client. Then the scope's row of the
  -- pipe has the record's sequence and encoding, the generation that is served has grown, and the
  -- revocations and redemptions are as they were.
  pub process-announces :
      (draws : Draws) (s s' : AuthorityState) (a : AuthorityResponse)
      → process g h req draws at s ≡ (ok a, s')
      → same req.operation announce_operation ≡ true
      → authenticate g h req at.verified ≡ ok invite
      → (r : PipeRecord) × IsAnnounced r
        × ((row : Record) × (find_record (scope_text h.scope) req.pipe_id s'.cache ≡ some row)
            × (row.sequence ≡ r.sequence)
            × (encode_record g r ≡ ok row.payload))
        × (served_generation (find_snapshot (scope_text h.scope) s.cache)
            < served_generation (find_snapshot (scope_text h.scope) s'.cache))
        × (s'.db ≡ s.db)
  unfolding process
  process-announces draws s s' a e op known =
      let done : announcing g h invite req at s ≡ (ok a, s') = ground (
        arith,
        dispatch-announce g h req draws at s invite
            ((same_iff req.operation announce_operation).0 op),
      ) in
      let (v, announced, put, db_kept) = announcing-ok s s' a done in
      let (r, was, row, growth) = announced_record-shows v s.cache s'.cache announced put in
      (r, was, row, growth, db_kept)
