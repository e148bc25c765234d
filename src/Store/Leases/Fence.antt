-- ===== src/Store/Leases/Fence.antt =====
-- Leases of internal/store/store.go that their scope no longer has.
use tubo.Base.{
  ℕ, ◌+◌, ◌≡◌, refl, sym, subst, ◌≢◌, inl, inr, Bool, true, false, Option, none, some, List, [],
  ◌∷◌, arith, Bytes, same, same_iff, Bool-cases, Option-cases, ok, same_key, same_key_iff, find_row,
  upsert_row, merged, find_row-upsert_row, key-find_row, IsKeyed, IsKeyed-upsert_row,
  IsKeyed-delete_rows, find_row-delete_rows,
}
use tubo.Store.Cache.{merged-replace, replace, find_lease, lease_key, Cache, LeaseRow}
use tubo.Store.Leases.{
  lease_current, extended, take_over, fenced_by, fenced_row, acquire_lease, release_lease,
  renew_lease,
}
use tubo.Store.Discovery.{record_snapshot_failure, reconcile_snapshot}
use tubo.Store.Records.{AuthoritativeSnapshot}
use tubo.Store.Leases.Lock.{
  Holder, fenced_row-ok, acquire_lease-ok, renew_lease-ok, release_lease-ok,
}
use tubo.Credential.{Library}

-- A history of the tables in which no acquisition draws the given token: calls on leases, and any change
-- of the other tables.
pub data Later (token : Bytes) (c : Cache) : Cache → Type 0 where
  now_here : Later token c c
  acquires_other :
      {a b : Cache} (g : Library) (scope holder_ref process_identity value : Bytes) (now ttl : ℕ)
      (lease : Option LeaseRow)
      → Later token c a
      → g.base64_encode value ≢ token
      → acquire_lease g scope holder_ref process_identity now ttl (some value) a ≡ ok (lease, b)
      → Later token c b
  renews_any :
      {a b : Cache} (l : LeaseRow) (now ttl : ℕ) (done : Bool)
      → Later token c a
      → renew_lease l now ttl a ≡ ok (done, b)
      → Later token c b
  releases_any :
      {a b : Cache} (l : LeaseRow) (done : Bool)
      → Later token c a
      → release_lease l a ≡ ok (done, b)
      → Later token c b
  writes_other : {a b : Cache} → Later token c a → b.leases ≡ a.leases → Later token c b

abbrev fenced_option : LeaseRow → Option LeaseRow → Bool
fenced_option l none = false
fenced_option l (some r) = fenced_by l r

-- The table is keyed, and its row for the lease's scope, if there is one, has another fence.
abbrev pub IsLost : LeaseRow → Cache → Type 0
IsLost l c = IsKeyed lease_key c.leases × (fenced_option l (find_lease l.scope c) ≡ false)

upsert_row-fenced :
    (l v : LeaseRow) (merge : LeaseRow → LeaseRow → LeaseRow) (rows : List LeaseRow)
    → ((r : LeaseRow) → lease_key (merge r v) ≡ lease_key v)
    → (v.scope ≡ l.scope
        → fenced_option l (some (merged merge v (find_row lease_key (v.scope ∷ []) rows))) ≡ false)
    → fenced_option l (find_row lease_key (l.scope ∷ []) rows) ≡ false
    → fenced_option l (find_row lease_key (l.scope ∷ []) (upsert_row lease_key merge v rows))
      ≡ false
upsert_row-fenced l v merge rows keeps own lost =
    elim (Bool-cases (same_key (v.scope ∷ []) (l.scope ∷ []))) [
      | inl hit ↦
          rw (find_row-upsert_row lease_key merge v (l.scope ∷ []) rows keeps, hit)
            (own (ground (arith, (same_key_iff (v.scope ∷ []) (l.scope ∷ [])).0 hit)))
      | inr miss ↦ rw (find_row-upsert_row lease_key merge v (l.scope ∷ []) rows keeps, miss) lost
    ]

taken-fenced :
    (l row : LeaseRow) (rows : List LeaseRow)
    → row.token ≢ l.token
    → fenced_option l (find_row lease_key (row.scope ∷ []) rows) ≡ false
    → fenced_option l (some (merged take_over row (find_row lease_key (row.scope ∷ []) rows)))
      ≡ false
taken-fenced l row rows fresh lost =
    elim (Option-cases (find_row lease_key (row.scope ∷ []) rows)) [
      | inl e ↦ rw e (ground (arith, same_iff row.token l.token))
      | inr (r, e) ↦
          let own : r.scope ≡ row.scope =
            ground (arith, key-find_row lease_key (row.scope ∷ []) rows r e) in
          let kept : fenced_by l r ≡ false = rw e at lost in
          rw e (ground (arith, same_iff row.token l.token))
    ]

not_fenced :
    (l row : LeaseRow) (rows : List LeaseRow)
    → find_row lease_key (row.scope ∷ []) rows ≡ some row
    → fenced_option l (find_row lease_key (l.scope ∷ []) rows) ≡ false
    → fenced_by l row ≡ false
not_fenced l row rows there lost = elim (Bool-cases (same row.scope l.scope)) [
  | inl e ↦
      let at_own : find_row lease_key (l.scope ∷ []) rows ≡ some row =
        subst (λ s. find_row lease_key (s ∷ []) rows ≡ some row) ((same_iff row.scope l.scope).0 e)
          there in
      rw at_own at lost
  | inr e ↦ ground arith
]

module _ (l : LeaseRow) where
  acquire-IsLost :
      (g : Library) (scope holder_ref process_identity value : Bytes) (now ttl : ℕ)
      (lease : Option LeaseRow) (a b : Cache)
      → g.base64_encode value ≢ l.token
      → acquire_lease g scope holder_ref process_identity now ttl (some value) a ≡ ok (lease, b)
      → IsLost l a
      → IsLost l b
  acquire-IsLost g scope holder_ref process_identity value now ttl lease a b fresh h lost =
      let (row, own, drawn, _, _, from, ends, valid, _, after) =
        acquire_lease-ok g scope holder_ref process_identity now ttl (some value) lease a b h in
      subst (IsLost l) (sym after) (
        IsKeyed-upsert_row lease_key take_over row a.leases (λ r. refl) lost.0,
        upsert_row-fenced l row take_over a.leases (λ r. refl)
            (λ e. taken-fenced l row a.leases (ground arith) (rw e lost.1)) lost.1,
      )

  renew-IsLost :
      (r : LeaseRow) (now ttl : ℕ) (done : Bool) (a b : Cache)
      → renew_lease r now ttl a ≡ ok (done, b)
      → IsLost l a
      → IsLost l b
  renew-IsLost r now ttl done a b h lost = elim (renew_lease-ok r now ttl done a b h).1 [
    | inl (_, unchanged) ↦ subst (IsLost l) (sym unchanged) lost
    | inr (row, found, live, after) ↦
        let (there, own) = fenced_row-ok r a row found in
        let at_row : find_lease row.scope a ≡ some row =
          subst (λ (x : Holder). find_lease x.scope a ≡ some row) (sym own) there in
        subst (IsLost l) (sym after) (
          IsKeyed-upsert_row lease_key replace (extended now (now + ttl) row) a.leases (λ _. refl)
              lost.0,
          upsert_row-fenced l (extended now (now + ttl) row) replace a.leases (λ _. refl)
              (λ e.
                rw
                  (merged-replace (extended now (now + ttl) row)
                    (find_row lease_key (row.scope ∷ []) a.leases))
                  (not_fenced l row a.leases at_row lost.1))
              lost.1,
        )
  ]

  release-IsLost :
      (r : LeaseRow) (done : Bool) (a b : Cache)
      → release_lease r a ≡ ok (done, b)
      → IsLost l a
      → IsLost l b
  release-IsLost r done a b h lost =
      let (_, after) = release_lease-ok r done a b h in
      ground (
        arith,
        IsKeyed-delete_rows lease_key (fenced_by r) a.leases,
        find_row-delete_rows lease_key (fenced_by r) (l.scope ∷ []) a.leases,
      )

  Later-IsLost : {c b : Cache} → Later l.token c b → IsLost l c → IsLost l b
  Later-IsLost now_here lost = lost
  Later-IsLost (acquires_other g s holder process value now ttl lease before fresh h) lost =
      acquire-IsLost g s holder process value now ttl lease _ _ fresh h (Later-IsLost before lost)
  Later-IsLost (renews_any r now ttl done before h) lost =
      renew-IsLost r now ttl done _ _ h (Later-IsLost before lost)
  Later-IsLost (releases_any r done before h) lost =
      release-IsLost r done _ _ h (Later-IsLost before lost)
  Later-IsLost (writes_other before e) lost = ground (arith, Later-IsLost before lost)

  not_current : (c : Cache) (now : ℕ) → fenced_row l c ≡ none → lease_current l now c ≢ ok tt
  unfolding lease_current
  not_current c now h = ground arith

  reconcile-fenced :
      (c e : Cache) (now : ℕ) (scope : Bytes) (s : AuthoritativeSnapshot)
      → reconcile_snapshot scope s (some l) now c ≡ ok e
      → lease_current l now c ≡ ok tt
  unfolding reconcile_snapshot
  reconcile-fenced c e now scope s h = ground arith

  failure-fenced :
      (c e : Cache) (now : ℕ) (scope source error_class : Bytes) (retry : Option ℕ)
      → record_snapshot_failure scope source error_class retry (some l) now c ≡ ok e
      → lease_current l now c ≡ ok tt
  unfolding record_snapshot_failure
  failure-fenced c e now scope source error_class retry h = ground arith

  -- A lease whose row was taken over or released stays lost, in every later state of a history that does
  -- not draw its token again: it is not renewed, it releases no row, and under it neither a snapshot nor
  -- a failure is written.
  pub lost_lease :
      (c d e : Cache) (now ttl : ℕ) (scope source error_class : Bytes) (s : AuthoritativeSnapshot)
      (retry : Option ℕ)
      → IsLost l c
      → Later l.token c d
      → (renew_lease l now ttl d ≢ ok (true, e))
        × (release_lease l d ≢ ok (true, e))
        × (reconcile_snapshot scope s (some l) now d ≢ ok e)
        × (record_snapshot_failure scope source error_class retry (some l) now d ≢ ok e)
  lost_lease c d e now ttl scope source error_class s retry lost later =
      let gone : fenced_row l d ≡ none = ground (arith, Later-IsLost later lost) in
      (
        λ h. ground (arith, renew_lease-ok l now ttl true d e h),
        λ h. ground (arith, release_lease-ok l true d e h),
        λ h. not_current d now gone (reconcile-fenced d e now scope s h),
        λ h. not_current d now gone (failure-fenced d e now scope source error_class retry h),
      )
