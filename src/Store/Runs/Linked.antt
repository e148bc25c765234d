-- ===== src/Store/Runs/Linked.antt =====
-- Traffic of internal/store/store.go is of runs that are there.
use tubo.Base.{
  ℕ, ◌≡◌, ◌≢◌, refl, sym, subst, ap, ◌∙◌, inl, inr, Bool, false, Option, none, List, [], ◌∷◌, arith,
  Bytes, same, same_iff, any, Bool-cases, Option-cases, Result-cases, ok, same_key, find_row,
  upsert_row, delete_rows, find_row-upsert_row, find_row-spared, find_row-deleted, any-delete_rows,
  any-deleted,
}
use tubo.Store.Cache.{replace}
use tubo.Store.Runs.{
  Run, Supervisor, RuntimeStats, RuntimePeer, Runs, run_key, stats_key, find_run, find_stats,
  reserve_run, put_run, delete_run, put_supervisor, delete_supervisor, insert_peers,
  put_runtime_telemetry, clear_runtime_peers, captured_identity, stored_run, deleted_run,
}

-- One call that commits, or a change of availability.
pub data RunCall : Runs → Runs → Type 0 where
  reserves :
      {a b : Runs} (ref kind : Bytes) (now : ℕ) → reserve_run ref kind now a ≡ ok b → RunCall a b
  puts_run :
      {a b : Runs} (identity_of : ℕ → Option Bytes) (v : Run) (now : ℕ)
      → put_run identity_of v now a ≡ ok b
      → RunCall a b
  deletes_run : {a b : Runs} (ref : Bytes) → delete_run ref a ≡ ok b → RunCall a b
  supervises : {a b : Runs} (v : Supervisor) (now : ℕ) → put_supervisor v now a ≡ ok b → RunCall a b
  unsupervises : {a b : Runs} (ref : Bytes) → delete_supervisor ref a ≡ ok b → RunCall a b
  measures :
      {a b : Runs} (stats : RuntimeStats) (peers : List RuntimePeer) (now : ℕ)
      → put_runtime_telemetry stats peers now a ≡ ok b
      → RunCall a b
  clears : {a b : Runs} (ref : Bytes) → clear_runtime_peers ref a ≡ ok b → RunCall a b
  turns : {a : Runs} (up : Bool) → RunCall a (record a { available = up })

pub data RunHistory (a : Runs) : Runs → Type 0 where
  no_runs : RunHistory a a
  then_run : {b c : Runs} → RunHistory a b → RunCall b c → RunHistory a c

abbrev pub of_run : Bytes → RuntimePeer → Bool
of_run k p = same p.run_ref k

-- Where there is no run, there is no traffic of it.
abbrev pub IsLinked : Runs → Type 0
IsLinked db =
    (k : Bytes)
    → find_run k db ≡ none
    → (find_stats k db ≡ none) × (any (of_run k) db.peers ≡ false)

find_row-absent :
    {R : Type 0} (column : R → Bytes) (k ref : Bytes) (rows : List R)
    → find_row (λ r. column r ∷ []) (k ∷ []) rows ≡ none
    → find_row (λ r. column r ∷ []) (k ∷ []) (delete_rows (λ r. same (column r) ref) rows) ≡ none
unfolding find_row delete_rows same_key
find_row-absent column k ref [] h = refl
find_row-absent column k ref (r ∷ rs) h = ground (arith, find_row-absent column k ref rs)

insert_peers-other :
    (k ref : Bytes) (now : ℕ) (peers rows out : List RuntimePeer)
    → ref ≢ k
    → any (of_run k) rows ≡ false
    → insert_peers ref now peers rows ≡ ok out
    → any (of_run k) out ≡ false
unfolding insert_peers
insert_peers-other k ref now [] rows out other h e = ground arith
insert_peers-other k ref now (p ∷ ps) rows out other h e =
    insert_peers-other k ref now ps (record p { run_ref = ref; last_seen = now } ∷ rows) out other
      (ground (arith, same_iff ref k)) (ground arith)

abbrev NoTraffic : Bytes → List RuntimeStats → List RuntimePeer → Type 0
NoTraffic k stats peers =
    (find_row stats_key (k ∷ []) stats ≡ none) × (any (of_run k) peers ≡ false)

-- The cascade of a deletion.
cascade-linked :
    (k ref : Bytes) (a : Runs)
    → IsLinked a
    → find_row run_key (k ∷ []) (delete_rows (λ (r : Run). same r.primary_ref ref) a.runs) ≡ none
    → NoTraffic k
        (delete_rows (λ (s : RuntimeStats). same s.run_ref ref) a.stats)
        (delete_rows (of_run ref) a.peers)
cascade-linked k ref a linked gone = elim (Bool-cases (same ref k)) [
  | inl hit ↦
      subst
        (λ x.
          NoTraffic k (delete_rows (λ (s : RuntimeStats). same s.run_ref x) a.stats)
            (delete_rows (of_run x) a.peers))
        (sym ((same_iff ref k).0 hit))
        (
          find_row-deleted (λ (s : RuntimeStats). s.run_ref) k a.stats,
          any-deleted (of_run k) (of_run k) a.peers (λ r h. h),
        )
  | inr miss ↦
      let other : ref ≢ k = ground (arith, same_iff ref k) in
      let (stats, peers) =
        linked k (sym (find_row-spared (λ (r : Run). r.primary_ref) k ref a.runs other) ∙ gone) in
      (
        find_row-absent (λ (s : RuntimeStats). s.run_ref) k ref a.stats stats,
        any-delete_rows (of_run k) (of_run ref) a.peers peers,
      )
]

-- A measurement is of a run that is there, so of no other.
measure-linked :
    (k : Bytes) (stats : RuntimeStats) (peers : List RuntimePeer) (now : ℕ) (a b : Runs)
    → IsLinked a
    → put_runtime_telemetry stats peers now a ≡ ok b
    → find_run k b ≡ none
    → NoTraffic k b.stats b.peers
unfolding put_runtime_telemetry same_key
measure-linked k stats peers now a b linked h gone =
    elim (Option-cases (find_run stats.run_ref a)) [
      | inl missing ↦ absurd (ground arith)
      | inr (v, there) ↦
          let kept = delete_rows (λ (p : RuntimePeer). same p.run_ref stats.run_ref) a.peers in
          elim (Result-cases (insert_peers stats.run_ref now peers kept)) [
            | inr (e, twice) ↦ absurd (ground arith)
            | inl (out, inserted) ↦
                let runs : b.runs ≡ a.runs = ground arith in
                let none_there : find_run k a ≡ none =
                  ap (find_row run_key (k ∷ [])) (sym runs) ∙ gone in
                let other : stats.run_ref ≢ k = λ e. ground (arith, ap (λ x. find_run x a) e) in
                let (quiet, silent) = linked k none_there in
                (
                  ap (find_row stats_key (k ∷ [])) (
                        let is : b.stats
                            ≡ upsert_row stats_key replace (record stats { updated_at = now })
                                a.stats =
                          ground arith in
                        is)
                      ∙ find_row-upsert_row stats_key replace (record stats { updated_at = now })
                          (k ∷ []) a.stats (λ _. refl)
                      ∙ ground (arith, same_iff stats.run_ref k),
                  (let is : b.peers ≡ out = ground arith in ap (any (of_run k)) is)
                      ∙ insert_peers-other k stats.run_ref now peers kept out other
                          (any-delete_rows (of_run k) (of_run stats.run_ref) a.peers silent)
                          inserted,
                )
          ]
    ]

put_run-linked :
    (k : Bytes) (v : Run) (a b : Runs)
    → IsLinked a
    → (b.stats ≡ a.stats) × (b.peers ≡ a.peers) × (b.runs ≡ upsert_row run_key replace v a.runs)
    → find_run k b ≡ none
    → NoTraffic k b.stats b.peers
unfolding same_key
put_run-linked k v a b linked (stats, peers, runs) gone =
    let written =
      ap (find_row run_key (k ∷ [])) runs
      ∙ find_row-upsert_row run_key replace v (k ∷ []) a.runs (λ _. refl) in
    let (quiet, silent) = linked k (ground arith) in
    (ap (find_row stats_key (k ∷ [])) stats ∙ quiet, ap (any (of_run k)) peers ∙ silent)

RunCall-IsLinked : {a b : Runs} → RunCall a b → IsLinked a → IsLinked b
unfolding reserve_run put_run delete_run put_supervisor delete_supervisor clear_runtime_peers
    find_row same_key
RunCall-IsLinked {a} {b} (reserves ref kind now h) linked k gone =
    let (quiet, silent) = linked k (ground arith) in ground arith
RunCall-IsLinked {a} {b} (puts_run identity_of v now h) linked k gone =
    elim (Result-cases (captured_identity identity_of v)) [
      | inr (e, lost) ↦ absurd (ground arith)
      | inl (identity, captured) ↦
          put_run-linked k (stored_run v identity now) a b linked
            (ground arith, ground arith, ground arith) gone
    ]
RunCall-IsLinked {a} {b} (deletes_run ref h) linked k gone =
    let after : b ≡ deleted_run ref a = ground arith in
    subst (λ (x : Runs). NoTraffic k x.stats x.peers) (sym after)
      (cascade-linked k ref a linked (ap (find_run k) (sym after) ∙ gone))
RunCall-IsLinked {a} {b} (supervises v now h) linked k gone =
    let (quiet, silent) = linked k (ground arith) in ground arith
RunCall-IsLinked {a} {b} (unsupervises ref h) linked k gone =
    let (quiet, silent) = linked k (ground arith) in ground arith
RunCall-IsLinked {a} {b} (measures stats peers now h) linked k gone =
    measure-linked k stats peers now a b linked h gone
RunCall-IsLinked {a} {b} (clears ref h) linked k gone =
    let after : b ≡ record a { peers = delete_rows (of_run ref) a.peers } = ground arith in
    subst (λ (x : Runs). NoTraffic k x.stats x.peers) (sym after)
      (let (quiet, silent) = linked k (ap (find_run k) (sym after) ∙ gone) in
        (quiet, any-delete_rows (of_run k) (of_run ref) a.peers silent))
RunCall-IsLinked {a} {b} (turns up) linked k gone = linked k gone

-- In every state that a history of calls reaches from one in which it is so, there is traffic of a run
-- only where the run is there.
pub RunHistory-IsLinked : {a b : Runs} → RunHistory a b → IsLinked a → IsLinked b
RunHistory-IsLinked no_runs linked = linked
RunHistory-IsLinked (then_run past call) linked =
    RunCall-IsLinked call (RunHistory-IsLinked past linked)
