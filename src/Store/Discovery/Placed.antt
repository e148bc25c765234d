-- ===== src/Store/Discovery/Placed.antt =====
-- Where the records of a snapshot stand once they are written (internal/store/store.go).
use tubo.Base.{
  ℕ, ◌≡◌, refl, sym, subst, ◌≢◌, ◌⊎◌, inl, inr, true, false, Option, some, List, [], ◌∷◌, arith,
  Bytes, same, same_iff, contains_string, Bool-cases, Option-cases, ok, Result-cases, bind-ok,
  same_key, same_key_refl, same_key_iff,
}
use tubo.Store.Discovery.Written.{At-contains, put_members-kept, check_members-cons, At, ids}
use tubo.Store.Discovery.{
  write_freshness, check_order, check_snapshot, delete_outside, reconcile_snapshot, check_members,
  put_members,
}
use tubo.Store.Cache.{find_freshness, LeaseRow, find_record, record_key, Cache, Record}
use tubo.Store.Records.{AuthoritativeSnapshot, owned_locally, put_discovered_record_tx}
use tubo.Store.Discovery.Members.{
  put_discovered-kept, write_record-find, put_discovered-cases, Shows,
}

-- The row of a member that no local row owns, before what is over is deleted: the row that was there,
-- or the member itself.
abbrev pub Placed : Record → Option Record → Option Record → Type 0
Placed m before after =
    (w : Record) × (after ≡ some w)
    × Shows m (some w)
    × ((before ≡ some w) ⊎ (w ≡ record m { discovered = true }))

put_discovered-Placed :
    (v : Record) (now : ℕ) (c c' : Cache)
    → put_discovered_record_tx v now c ≡ ok c'
    → owned_locally (find_record v.scope v.pipe_id c) ≡ false
    → Placed v (find_record v.scope v.pipe_id c) (find_record v.scope v.pipe_id c')
put_discovered-Placed v now c c' put free = elim (put_discovered-cases v now c c' put) [
  | inl (e, owned) ↦ ground arith
  | inr (inl (e, _, shown)) ↦ elim (Option-cases (find_record v.scope v.pipe_id c)) [
    | inl absent ↦ elim (subst (Shows v) absent shown) [ ]
    | inr (w, there) ↦ (w, rw e there, subst (Shows v) there shown, inl there)
  ]
  | inr (inr (e, _)) ↦ (
    record v { discovered = true },
    rw
        (
          e,
          write_record-find (record v { discovered = true }) v.scope v.pipe_id c,
          same_key_refl (record_key v),
        )
        refl,
    (refl, refl, refl),
    inr refl,
  )
]

different_ids :
    (m r : Record) (rs : List Record)
    → contains_string r.pipe_id (ids rs) ≡ false
    → At m rs
    → m.pipe_id ≢ r.pipe_id
different_ids m r rs fresh there e = ground (arith, At-contains m rs there)

different_keys :
    (m : Record) (scope pipe_id : Bytes)
    → m.pipe_id ≢ pipe_id
    → same_key (record_key m) (scope ∷ pipe_id ∷ []) ≡ false
different_keys m scope pipe_id other =
    elim (Bool-cases (same_key (record_key m) (scope ∷ pipe_id ∷ []))) [
      | inl e ↦ ground (arith, (same_key_iff (record_key m) (scope ∷ pipe_id ∷ [])).0 e)
      | inr e ↦ e
    ]

pub different_scopes :
    (m : Record) (scope pipe_id own : Bytes)
    → m.scope ≡ own
    → same scope own ≡ false
    → same_key (record_key m) (scope ∷ pipe_id ∷ []) ≡ false
different_scopes m scope pipe_id own e other =
    elim (Bool-cases (same_key (record_key m) (scope ∷ pipe_id ∷ []))) [
      | inl hit ↦
          ground
            (arith, (same_key_iff (record_key m) (scope ∷ pipe_id ∷ [])).0 hit, same_iff scope own)
      | inr miss ↦ miss
    ]

module _ (now : ℕ) where
  pub put_members-Placed :
      (scope : Bytes) (seen : List Bytes) (rs : List Record) (c c' : Cache)
      → check_members scope seen rs ≡ ok tt
      → put_members now rs c ≡ ok c'
      → (m : Record) → At m rs
      → owned_locally (find_record m.scope m.pipe_id c) ≡ false
      → Placed m (find_record m.scope m.pipe_id c) (find_record m.scope m.pipe_id c')
  unfolding put_members
  put_members-Placed scope seen [] c c' checked h m at free = elim at [ ]
  put_members-Placed scope seen (r ∷ rs) c c' checked h m (inl e) free =
      let (_, fresh, _) = check_members-cons scope seen r rs checked in
      let (mid, first, rest) = bind-ok (put_discovered_record_tx r now c) (put_members now rs) h in
      let kept : find_record m.scope m.pipe_id c' ≡ find_record m.scope m.pipe_id mid =
        put_members-kept now m.scope m.pipe_id rs mid c' rest (
          inl (λ x there.
            different_keys x m.scope m.pipe_id
              (λ same_id. different_ids x r rs fresh there (ground arith)))) in
      let head : put_discovered_record_tx m now c ≡ ok mid = rw e first in
      rw kept (put_discovered-Placed m now c mid head free)
  put_members-Placed scope seen (r ∷ rs) c c' checked h m (inr there) free =
      let (_, fresh, others) = check_members-cons scope seen r rs checked in
      let (mid, first, rest) = bind-ok (put_discovered_record_tx r now c) (put_members now rs) h in
      let kept : find_record m.scope m.pipe_id mid ≡ find_record m.scope m.pipe_id c =
        put_discovered-kept r now c mid first m.scope m.pipe_id (
          inl
            (different_keys r m.scope m.pipe_id (λ e. different_ids m r rs fresh there (sym e)))) in
      subst (λ o. Placed m o (find_record m.scope m.pipe_id c')) kept
        (put_members-Placed scope (r.pipe_id ∷ seen) rs mid c' others rest m there
          (subst (λ o. owned_locally o ≡ false) (sym kept) free))

pub reconcile_snapshot-ok :
    (scope : Bytes) (s : AuthoritativeSnapshot) (lease : Option LeaseRow) (now : ℕ) (c c' : Cache)
    → reconcile_snapshot scope s lease now c ≡ ok c'
    → (check_snapshot s ≡ ok tt)
      × (check_members scope [] s.records ≡ ok tt)
      × (check_order s (find_freshness scope c) ≡ ok tt)
      × ((written : Cache) × (put_members now s.records c ≡ ok written)
          × (c' ≡ write_freshness scope s now (delete_outside scope s.records now written)))
unfolding reconcile_snapshot
reconcile_snapshot-ok scope s lease now c c' h = elim (Result-cases (put_members now s.records c)) [
  | inl (written, e) ↦ (ground arith, ground arith, ground arith, (written, e, ground arith))
  | inr (failed, e) ↦ ground arith
]
