-- ===== src/Scoped/Listed.antt =====
-- What internal/runtime/authority.go lists.
use tubo.Base.{
  ℕ, suc, ◌<◌, ◌≡◌, subst, inl, inr, true, List, [], ◌∷◌, arith, Bytes, lit, same, All, ==_iff,
  Bool-cases, Option-cases, ok, Result-cases,
}
use tubo.Store.Cache.{find_snapshot, Cache, Record}
use tubo.Store.Records.{max_snapshot_records, prune_local, SnapshotAnswer, authority_snapshot}
use tubo.Scoped.{scope_text, stored_invalid, ScopedError, ScopedLibrary, PipeRecord}
use tubo.Scoped.Process.{
  authenticate_snapshot, AuthoritySnapshotResponse, AuthoritySnapshotRequest, snapshot_response,
  process_snapshot, discoverable_payloads,
}
use tubo.Scoped.Server.{AuthorityState, Readings, own_public, read_stored, AuthorityHandler}
use tubo.Scoped.Records.{verify_record, parse_record}

authority_snapshot-counters :
    (scope : Bytes) (limit now : ℕ) (c c' : Cache) (found : SnapshotAnswer)
    → authority_snapshot scope limit now c ≡ ok (found, c')
    → (0 < found.generation) × (0 < found.high_water)
unfolding authority_snapshot
authority_snapshot-counters scope limit now c c' found h =
    elim (Result-cases (prune_local scope now c)) [
      | inl (pruned, e) ↦ elim (Option-cases (find_snapshot scope pruned)) [
        | inl absent ↦ ground arith
        | inr (meta, there) ↦ ground (arith, ==_iff meta.generation 0, ==_iff meta.high_water 0)
      ]
      | inr (failure, e) ↦ ground arith
    ]

module _ (g : ScopedLibrary) (h : AuthorityHandler) where
  -- A payload of a discoverable record that verified for the authority's scope.
  abbrev pub IsDiscoverable : Bytes → Type 0
  IsDiscoverable payload =
      (r : PipeRecord) × (now : ℕ) × (parse_record g payload ≡ ok r)
      × (verify_record g r (own_public g h) h.scope now ≡ ok tt)
      × (same r.visibility (lit "discoverable") ≡ true)

  read_stored-ok :
      (payload : Bytes) (failure : ScopedError) (now : ℕ) (r : PipeRecord)
      → read_stored g h payload failure now ≡ ok r
      → (parse_record g payload ≡ ok r) × (verify_record g r (own_public g h) h.scope now ≡ ok tt)
  unfolding read_stored
  read_stored-ok payload failure now r e = elim (Result-cases (parse_record g payload)) [
    | inl (r', read) ↦ elim (Result-cases (verify_record g r' (own_public g h) h.scope now)) [
      | inl (_, verified) ↦ (
        ground arith,
        subst (λ x. verify_record g x (own_public g h) h.scope now ≡ ok tt) (ground arith) verified,
      )
      | inr (fault, refused) ↦ ground arith
    ]
    | inr (fault, unread) ↦ ground arith
  ]

  pub discoverable_payloads-All :
      (listed : ℕ → ℕ) (i : ℕ) (rows : List Record) (payloads : List Bytes)
      → discoverable_payloads g h listed i rows ≡ ok payloads
      → All IsDiscoverable payloads
  unfolding discoverable_payloads
  discoverable_payloads-All listed i [] payloads e =
      subst (All IsDiscoverable) {x = []} (ground arith) tt
  discoverable_payloads-All listed i (s ∷ rows) payloads e =
      elim (Result-cases (read_stored g h s.payload stored_invalid (listed i))) [
        | inl (r, read) ↦ elim (Result-cases (discoverable_payloads g h listed (suc i) rows)) [
          | inl (rest, those) ↦ elim (Bool-cases (same r.visibility (lit "discoverable"))) [
            | inl shown ↦
                let (parsed, verified) =
                  read_stored-ok s.payload stored_invalid (listed i) r read in
                subst (All IsDiscoverable) {x = s.payload ∷ rest} (ground arith) (
                  (r, listed i, parsed, verified, shown),
                  discoverable_payloads-All listed (suc i) rows rest those,
                )
            | inr hidden ↦
                subst (All IsDiscoverable) {x = rest} (ground arith)
                  (discoverable_payloads-All listed (suc i) rows rest those)
          ]
          | inr (fault, refused) ↦ ground arith
        ]
        | inr (fault, unread) ↦ ground arith
      ]

  -- A snapshot that is served is of payloads of discoverable records alone, each of which verified under
  -- the authority's key for its scope, and has a generation and a high water that are not 0.
  pub process_snapshot-All :
      (req : AuthoritySnapshotRequest) (at : Readings) (s s' : AuthorityState)
      (a : AuthoritySnapshotResponse)
      → process_snapshot g h req at s ≡ (ok a, s')
      → All IsDiscoverable a.records × (0 < a.generation) × (0 < a.high_water)
  unfolding process_snapshot snapshot_response
  process_snapshot-All req at s s' a e =
      elim (Result-cases (authenticate_snapshot g h req at.verified)) [
        | inl (invite, known) ↦
            elim (Result-cases
              (authority_snapshot (scope_text h.scope) max_snapshot_records at.pruned s.cache)) [
                | inl ((found, next), taken) ↦
                    elim (Result-cases (discoverable_payloads g h at.listed 0 found.records)) [
                      | inl (payloads, those) ↦
                          let shape : a ≡ record {
                            generation = found.generation;
                            high_water = found.high_water;
                            records = payloads;
                          } =
                            ground arith in
                          let (g_pos, w_pos) =
                            authority_snapshot-counters (scope_text h.scope) max_snapshot_records
                              at.pruned s.cache next found taken in
                          rw shape (
                            discoverable_payloads-All at.listed 0 found.records payloads those,
                            g_pos,
                            w_pos,
                          )
                      | inr (failure, refused) ↦ ground arith
                    ]
                | inr (failure, refused) ↦ ground arith
              ]
        | inr (failure, unknown) ↦ ground arith
      ]
