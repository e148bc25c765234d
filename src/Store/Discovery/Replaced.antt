-- ===== src/Store/Discovery/Replaced.antt =====
-- The tables after a snapshot of internal/store/store.go took the place of what was discovered before.
use tubo.Base.{
  ap, ℕ, ◌≡◌, sym, subst, ◌∙◌, ◌⊎◌, inl, inr, true, false, Option, none, some, [], Bytes, same, any,
  if◌then◌else◌, ok, IsKeyed,
}
use tubo.Store.Discovery.Written.{At-scope, put_members-IsKeyed, put_members-kept, At}
use tubo.Store.Stamp.{text_le}
use tubo.Store.Discovery.{outdated_discovered, outside_snapshot, reconcile_snapshot}
use tubo.Store.Cache.{LeaseRow, find_record, record_key, Cache, Record}
use tubo.Store.Records.{AuthoritativeSnapshot, owned_locally}
use tubo.Store.Discovery.Members.{Shows}
use tubo.Store.Discovery.Placed.{different_scopes, put_members-Placed, reconcile_snapshot-ok}
use tubo.Store.Discovery.Deleted.{
  delete_outside-alone, delete_outside-member, delete_outside-gone, delete_outside-IsKeyed,
  delete_outside-over,
}

module _ (scope : Bytes) (s : AuthoritativeSnapshot) (lease : Option LeaseRow) (now : ℕ)
    (c c' : Cache) (keyed : IsKeyed record_key c.records)
    (done : reconcile_snapshot scope s lease now c ≡ ok c') where
  -- A snapshot that is accepted leaves every row of another scope and every row of this machine as it
  -- was, and of the rows it discovered in its scope none is left that is not of a record of the
  -- snapshot, and none whose expiry, compared as text, is over. No key occurs twice.
  pub reconcile-outside :
      (sc pipe_id : Bytes)
      → (same sc scope ≡ false) ⊎ (owned_locally (find_record sc pipe_id c) ≡ true)
      → (find_record sc pipe_id c' ≡ find_record sc pipe_id c)
        × (any (outside_snapshot scope s.records) c'.records ≡ false)
        × (any (outdated_discovered scope now) c'.records ≡ false)
        × IsKeyed record_key c'.records
  reconcile-outside sc pipe_id alone =
      let (_, checked, _, (written, put, after)) =
        reconcile_snapshot-ok scope s lease now c c' done in
      let written_keyed : IsKeyed record_key written.records =
        put_members-IsKeyed now s.records c written put keyed in
      let kept : find_record sc pipe_id written ≡ find_record sc pipe_id c =
        put_members-kept now sc pipe_id s.records c written put (elim alone [
          | inl other ↦ inl (λ m there.
              different_scopes m sc pipe_id scope (At-scope scope [] m s.records checked there)
                other)
          | inr owned ↦ inr owned
        ]) in
      rw after (
        delete_outside-alone scope s.records now written written_keyed sc pipe_id (elim alone [
          | inl other ↦ inl other
          | inr owned ↦ inr (subst (λ o. owned_locally o ≡ true) (sym kept) owned)
        ])
            ∙ kept,
        delete_outside-gone scope s.records now written written_keyed,
        delete_outside-over scope s.records now written written_keyed,
        delete_outside-IsKeyed scope s.records now written written_keyed,
      )

  -- Each record of an accepted snapshot whose key no row of this machine owns is shown by its row: the
  -- row is discovered, has the record's sequence and payload, and is the row that was there or the
  -- record itself; only where the row's expiry, compared as text, is over has it been deleted.
  pub reconcile-members :
      (m : Record)
      → At m s.records
      → owned_locally (find_record m.scope m.pipe_id c) ≡ false
      → (w : Record) × Shows m (some w)
        × ((find_record m.scope m.pipe_id c ≡ some w) ⊎ (w ≡ record m { discovered = true }))
        × (find_record m.scope m.pipe_id c' ≡ (if text_le w.expires_at now then none else some w))
  reconcile-members m there free =
      let (_, checked, _, (written, put, after)) =
        reconcile_snapshot-ok scope s lease now c c' done in
      let (w, at, shown, from) =
        put_members-Placed now scope [] s.records c written checked put m there free in
      (
        w,
        shown,
        from,
        ap (find_record m.scope m.pipe_id) after
            ∙ delete_outside-member scope s.records now written
                (put_members-IsKeyed now s.records c written put keyed) m w
                (At-scope scope [] m s.records checked there) there at shown.0,
      )
