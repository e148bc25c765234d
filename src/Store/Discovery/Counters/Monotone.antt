-- ===== src/Store/Discovery/Counters/Monotone.antt =====
-- No call of internal/store/store.go moves a counter back.
use tubo.Base.{
  ℕ, ◌+◌, ◌≤◌, ◌≡◌, refl, sym, subst, inl, inr, true, false, Option, none, some, List, [], ◌∷◌,
  arith, Bytes, any, ltb_iff, Bool-cases, Option-cases, ok, bind-ok, same_key, same_key_iff,
  upsert_row, delete_rows, merged, find_row-upsert_row,
}
use tubo.Store.Cache.{
  merged-replace, freshness_key, snapshot_key, LeaseRow, find_freshness, find_snapshot, replace,
  Cache, Freshness, Record, SnapshotRow,
}
use tubo.Store.Discovery.Placed.{reconcile_snapshot-ok}
use tubo.Store.Discovery.{
  check_order, delete_outside, keep_counters, prune_expired_records, record_snapshot_failure,
  reconcile_snapshot, put_members,
}
use tubo.Store.Records.{
  keep_old, outdated_local, prune_local, write_snapshot, AuthoritativeSnapshot, authority_snapshot,
  SnapshotAnswer, ensure_authority_snapshot, put_authoritative_record, put_discovered_record_tx,
  put_record, put_record_tx, advance_authority_snapshot_tx,
}
use tubo.Store.Discovery.Members.{put_discovered-cases, put_record_tx-ok}
use tubo.Store.Discovery.Counters.{
  served_generation, served_high_water, seen_generation, seen_high_water, NoneFalls, CacheCall,
  CacheHistory, puts, announces, prepares, serves, reconciles, records_failure, prunes, unchanged,
  then_calls,
}

NoneFalls-same :
    (scope : Bytes) (a b : Cache)
    → b.snapshots ≡ a.snapshots
    → b.freshness ≡ a.freshness
    → NoneFalls scope a b
NoneFalls-same scope a b e f = rw (e, f) (omega arith, omega arith, omega arith, omega arith)

module _ (scope : Bytes) where
  write_snapshots-NoneFalls :
      (merge : SnapshotRow → SnapshotRow → SnapshotRow) (v : SnapshotRow) (c : Cache)
      → ((r : SnapshotRow) → snapshot_key (merge r v) ≡ snapshot_key v)
      → served_generation (find_snapshot v.scope c)
        ≤ (merged merge v (find_snapshot v.scope c)).generation
      → served_high_water (find_snapshot v.scope c)
        ≤ (merged merge v (find_snapshot v.scope c)).high_water
      → NoneFalls scope c (record c { snapshots = upsert_row snapshot_key merge v c.snapshots })
  write_snapshots-NoneFalls merge v c keeps g w =
      elim (Bool-cases (same_key (v.scope ∷ []) (scope ∷ []))) [
        | inl hit ↦
            let own : v.scope ≡ scope =
              ground (arith, (same_key_iff (v.scope ∷ []) (scope ∷ [])).0 hit) in
            rw (find_row-upsert_row snapshot_key merge v (scope ∷ []) c.snapshots keeps, hit)
              (
                subst
                    (λ x.
                      served_generation (find_snapshot x c)
                      ≤ (merged merge v (find_snapshot v.scope c)).generation)
                    own g,
                subst
                    (λ x.
                      served_high_water (find_snapshot x c)
                      ≤ (merged merge v (find_snapshot v.scope c)).high_water)
                    own w,
                omega arith,
                omega arith,
              )
        | inr miss ↦
            rw (find_row-upsert_row snapshot_key merge v (scope ∷ []) c.snapshots keeps, miss)
              (omega arith, omega arith, omega arith, omega arith)
      ]

  write_freshness-NoneFalls :
      (merge : Freshness → Freshness → Freshness) (v : Freshness) (c : Cache)
      → ((r : Freshness) → freshness_key (merge r v) ≡ freshness_key v)
      → seen_generation (find_freshness v.scope c)
        ≤ (merged merge v (find_freshness v.scope c)).generation
      → seen_high_water (find_freshness v.scope c)
        ≤ (merged merge v (find_freshness v.scope c)).high_water
      → NoneFalls scope c (record c { freshness = upsert_row freshness_key merge v c.freshness })
  write_freshness-NoneFalls merge v c keeps g w =
      elim (Bool-cases (same_key (v.scope ∷ []) (scope ∷ []))) [
        | inl hit ↦
            let own : v.scope ≡ scope =
              ground (arith, (same_key_iff (v.scope ∷ []) (scope ∷ [])).0 hit) in
            rw (find_row-upsert_row freshness_key merge v (scope ∷ []) c.freshness keeps, hit)
              (
                omega arith,
                omega arith,
                subst
                    (λ x.
                      seen_generation (find_freshness x c)
                      ≤ (merged merge v (find_freshness v.scope c)).generation)
                    own g,
                subst
                    (λ x.
                      seen_high_water (find_freshness x c)
                      ≤ (merged merge v (find_freshness v.scope c)).high_water)
                    own w,
              )
        | inr miss ↦
            rw (find_row-upsert_row freshness_key merge v (scope ∷ []) c.freshness keeps, miss)
              (omega arith, omega arith, omega arith, omega arith)
      ]

  put_record_tx-tables :
      (v : Record) (now : ℕ) (c c' : Cache)
      → put_record_tx v now c ≡ ok c'
      → (c'.snapshots ≡ c.snapshots) × (c'.freshness ≡ c.freshness)
  put_record_tx-tables v now c c' h = ground (arith, put_record_tx-ok v now c c')

  put_members-tables :
      (now : ℕ) (rs : List Record) (c c' : Cache)
      → put_members now rs c ≡ ok c'
      → (c'.snapshots ≡ c.snapshots) × (c'.freshness ≡ c.freshness)
  unfolding put_members
  put_members-tables now [] c c' h = ground arith
  put_members-tables now (r ∷ rs) c c' h =
      let (mid, first, rest) = bind-ok (put_discovered_record_tx r now c) (put_members now rs) h in
      ground (arith, put_discovered-cases r now c mid first, put_members-tables now rs mid c' rest)

  advance-NoneFalls :
      (own : Bytes) (c c' : Cache)
      → advance_authority_snapshot_tx own c ≡ ok c'
      → NoneFalls scope c c'
  unfolding advance_authority_snapshot_tx
  advance-NoneFalls own c c' h = elim (Option-cases (find_snapshot own c)) [
    | inl e ↦
        let after : c' ≡ write_snapshot (record { scope = own; generation = 1; high_water = 1 }) c =
          ground arith in
        subst (NoneFalls scope c) (sym after) (
          write_snapshots-NoneFalls replace (record { scope = own; generation = 1; high_water = 1 })
            c (λ r. refl) (rw e (omega arith)) (rw e (omega arith)))
    | inr (s, e) ↦
        let next : SnapshotRow = record {
          scope = own;
          generation = s.generation + 1;
          high_water = s.high_water + 1;
        } in
        let after : c' ≡ write_snapshot next c = ground arith in
        subst (NoneFalls scope c) (sym after) (
          write_snapshots-NoneFalls replace next c (λ r. refl) (rw e (omega arith))
            (rw e (omega arith)))
  ]

  ensure-NoneFalls :
      (own : Bytes) (c c' : Cache) → ensure_authority_snapshot own c ≡ ok c' → NoneFalls scope c c'
  unfolding ensure_authority_snapshot
  ensure-NoneFalls own c c' h =
      let first : SnapshotRow = record { scope = own; generation = 1; high_water = 1 } in
      let after : c' ≡ record c { snapshots = upsert_row snapshot_key keep_old first c.snapshots } =
        ground arith in
      subst (NoneFalls scope c) (sym after) (elim (Option-cases (find_snapshot own c)) [
        | inl e ↦
            write_snapshots-NoneFalls keep_old first c (λ r. refl) (rw e (omega arith))
              (rw e (omega arith))
        | inr (r, e) ↦
            write_snapshots-NoneFalls keep_old first c (λ r. refl) (rw e (omega arith))
              (rw e (omega arith))
      ])

  check_order-ok :
      (s : AuthoritativeSnapshot) (seen : Option Freshness)
      → check_order s seen ≡ ok tt
      → (seen_generation seen ≤ s.generation) × (seen_high_water seen ≤ s.high_water)
  unfolding check_order
  check_order-ok s none h = (omega arith, omega arith)
  check_order-ok s (some f) h =
      ground (arith, ltb_iff s.generation f.generation, ltb_iff s.high_water f.high_water)

  reconcile-NoneFalls :
      (own : Bytes) (s : AuthoritativeSnapshot) (lease : Option LeaseRow) (now : ℕ) (c c' : Cache)
      → reconcile_snapshot own s lease now c ≡ ok c'
      → NoneFalls scope c c'
  unfolding delete_outside
  reconcile-NoneFalls own s lease now c c' h =
      let (_, _, ordered, (written, put, after)) = reconcile_snapshot-ok own s lease now c c' h in
      let (same_snapshots, same_freshness) = put_members-tables now s.records c written put in
      let (g, w) = check_order-ok s (find_freshness own c) ordered in
      let row : Freshness = record {
        scope = own;
        last_attempt = some now;
        last_success = some now;
        source = s.source;
        complete = true;
        error_class = [];
        next_retry = none;
        generation = s.generation;
        high_water = s.high_water;
        digest = s.digest;
      } in
      let next : NoneFalls scope c
          (record c { freshness = upsert_row freshness_key replace row c.freshness }) =
        write_freshness-NoneFalls replace row c (λ r. refl)
          (rw (merged-replace row (find_freshness own c)) g)
          (rw (merged-replace row (find_freshness own c)) w) in
      rw (after, same_snapshots, same_freshness) next

  failure-NoneFalls :
      (own source error_class : Bytes) (retry : Option ℕ) (lease : Option LeaseRow) (now : ℕ)
      (c c' : Cache)
      → record_snapshot_failure own source error_class retry lease now c ≡ ok c'
      → NoneFalls scope c c'
  unfolding record_snapshot_failure
  failure-NoneFalls own source error_class retry lease now c c' h =
      let row : Freshness = record {
        scope = own;
        last_attempt = some now;
        last_success = none;
        source = source;
        complete = false;
        error_class = error_class;
        next_retry = retry;
        generation = 0;
        high_water = 0;
        digest = [];
      } in
      let after : c'
          ≡ record c { freshness = upsert_row freshness_key keep_counters row c.freshness } =
        ground arith in
      subst (NoneFalls scope c) (sym after) (elim (Option-cases (find_freshness own c)) [
        | inl e ↦
            write_freshness-NoneFalls keep_counters row c (λ r. refl) (rw e (omega arith))
              (rw e (omega arith))
        | inr (r, e) ↦
            write_freshness-NoneFalls keep_counters row c (λ r. refl) (rw e (omega arith))
              (rw e (omega arith))
      ])

  serve-NoneFalls :
      (own : Bytes) (limit now : ℕ) (answer : SnapshotAnswer) (c c' : Cache)
      → authority_snapshot own limit now c ≡ ok (answer, c')
      → NoneFalls scope c c'
  unfolding authority_snapshot prune_local
  serve-NoneFalls own limit now answer c c' h =
      let pruned : prune_local own now c ≡ ok c' = ground arith in
      elim (Bool-cases (any (outdated_local own now) c.records)) [
        | inl some_over ↦
            advance-NoneFalls own
              (record c { records = delete_rows (outdated_local own now) c.records }) c'
              (ground arith)
        | inr none_over ↦ NoneFalls-same scope c c' (ground arith) (ground arith)
      ]

  CacheCall-NoneFalls : {c c' : Cache} → CacheCall c c' → NoneFalls scope c c'
  unfolding put_record put_authoritative_record prune_expired_records
  CacheCall-NoneFalls {c} {c'} (puts v now h) =
      let (e, f) = put_record_tx-tables v now c c' (ground arith) in NoneFalls-same scope c c' e f
  CacheCall-NoneFalls {c} {c'} (announces v now h) =
      let (mid, first, rest) =
        bind-ok {result = c'} (put_record_tx v now c) (λ x. advance_authority_snapshot_tx v.scope x)
          (ground arith) in
      let (e, f) = put_record_tx-tables v now c mid first in
      ground (arith, NoneFalls-same scope c mid e f, advance-NoneFalls v.scope mid c' rest)
  CacheCall-NoneFalls (prepares own h) = ensure-NoneFalls own _ _ h
  CacheCall-NoneFalls (serves own limit now answer h) = serve-NoneFalls own limit now answer _ _ h
  CacheCall-NoneFalls (reconciles own s lease now h) = reconcile-NoneFalls own s lease now _ _ h
  CacheCall-NoneFalls (records_failure own source error_class retry lease now h) =
      failure-NoneFalls own source error_class retry lease now _ _ h
  CacheCall-NoneFalls {c} {c'} (prunes now h) =
      NoneFalls-same scope c c' (ground arith) (ground arith)

-- Whatever calls are made, in whatever order, neither the generation nor the high water that an
-- authority serves for a scope falls, nor those last seen of a scope's authority.
pub CacheHistory-NoneFalls :
    {c c' : Cache} (scope : Bytes) → CacheHistory c c' → NoneFalls scope c c'
CacheHistory-NoneFalls {c} scope unchanged = NoneFalls-same scope c c refl refl
CacheHistory-NoneFalls scope (then_calls before call) =
    ground (arith, CacheHistory-NoneFalls scope before, CacheCall-NoneFalls scope call)
