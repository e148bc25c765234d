-- ===== src/Store/Leases/Lock.antt =====
-- The lease of a scope in internal/store/store.go as a lock.
use tubo.Base.{
  ℕ, ◌+◌, ◌/◌, ◌≤◌, ◌<◌, ◌≡◌, refl, sym, ap, subst, ◌∙◌, ◌⊎◌, inl, inr, Bool, true, false, Option,
  none, some, List, [], ◌∷◌, arith, Bytes, same_iff, if◌then◌else◌, Bool-cases, ok, same_key,
  same_key_iff, find_row, upsert_row, delete_rows, merged, find_row-upsert_row, IsKeyed,
  find_row-delete_rows, key-find_row,
}
use tubo.Store.Stamp.{text_gt-second, text_le-second, text_le, second}
use tubo.Store.Cache.{replace, lease_key, find_lease, Cache, LeaseRow}
use tubo.Store.Leases.{
  extended, take_over, fenced_by, fenced_row, takes, release_lease, renew_lease, acquire_lease,
  max_scope_sync_lease_ttl, valid_lease_input,
}
use tubo.Credential.{Library}

-- Who holds, or asks for, the lock of a scope: under which token, for which holder and which process.
pub record Holder : Type 0 where
  pub scope : Bytes
  pub token : Bytes
  pub holder_ref : Bytes
  pub process_identity : Bytes

-- The lock of one scope, as callers may think of it: free, or held by someone until a time; and what a call
-- of `by` may do to it. Two times of one second may be taken in either order.
pub data LockStep (by : Holder) : Option (Holder × ℕ) → Option (Holder × ℕ) → Type 0 where
  stays : {l : Option (Holder × ℕ)} → LockStep by l l
  takes_free :
      (now ttl : ℕ)
      → 0 < ttl
      → ttl ≤ max_scope_sync_lease_ttl
      → LockStep by none (some (by, now + ttl))
  takes_over :
      {old : Holder} {until : ℕ} (now ttl : ℕ)
      → until / second ≤ now / second
      → 0 < ttl
      → ttl ≤ max_scope_sync_lease_ttl
      → LockStep by (some (old, until)) (some (by, now + ttl))
  extends :
      {until : ℕ} (now ttl : ℕ)
      → now / second ≤ until / second
      → 0 < ttl
      → ttl ≤ max_scope_sync_lease_ttl
      → LockStep by (some (by, until)) (some (by, now + ttl))
  frees : {until : ℕ} → LockStep by (some (by, until)) none

abbrev holder_of : LeaseRow → Holder
holder_of r = record {
  scope = r.scope;
  token = r.token;
  holder_ref = r.holder_ref;
  process_identity = r.process_identity;
}

abbrev row_lock : Option LeaseRow → Option (Holder × ℕ)
row_lock none = none
row_lock (some r) = some (holder_of r, r.expires_at)

-- What the table says of the lock of a scope.
abbrev pub lock_of : Bytes → Cache → Option (Holder × ℕ)
lock_of scope c = row_lock (find_lease scope c)

-- One call, of any process.
pub data LeaseCall : Cache → Cache → Type 0 where
  acquires :
      {c c' : Cache} (g : Library) (scope holder_ref process_identity : Bytes) (now ttl : ℕ)
      (random : Option Bytes) (lease : Option LeaseRow)
      → acquire_lease g scope holder_ref process_identity now ttl random c ≡ ok (lease, c')
      → LeaseCall c c'
  renews :
      {c c' : Cache} (l : LeaseRow) (now ttl : ℕ) (done : Bool)
      → renew_lease l now ttl c ≡ ok (done, c')
      → LeaseCall c c'
  releases :
      {c c' : Cache} (l : LeaseRow) (done : Bool)
      → release_lease l c ≡ ok (done, c')
      → LeaseCall c c'

abbrev token_of : Library → Option Bytes → Bytes
token_of g none = []
token_of g (some value) = g.base64_encode value

-- Who makes a call: an acquisition under the token that it has drawn, the others with the lease they pass.
abbrev pub caller : {c c' : Cache} → LeaseCall c c' → Holder
caller (acquires g scope holder_ref process_identity now ttl random lease h) = record {
  scope = scope;
  token = token_of g random;
  holder_ref = holder_ref;
  process_identity = process_identity;
}
caller (renews l now ttl done h) = holder_of l
caller (releases l done h) = holder_of l

valid_lease_input-ttl :
    (scope holder_ref process_identity : Bytes) (ttl : ℕ)
    → valid_lease_input scope holder_ref process_identity ttl ≡ ok tt
    → (0 < ttl) × (ttl ≤ max_scope_sync_lease_ttl)
unfolding valid_lease_input
valid_lease_input-ttl scope holder_ref process_identity ttl h = ground arith

-- What an acquisition was given, and what it wrote.
pub acquire_lease-ok :
    (g : Library) (scope holder_ref process_identity : Bytes) (now ttl : ℕ) (random : Option Bytes)
    (lease : Option LeaseRow) (c c' : Cache)
    → acquire_lease g scope holder_ref process_identity now ttl random c ≡ ok (lease, c')
    → (row : LeaseRow) × (row.scope ≡ scope)
      × ((value : Bytes) × (random ≡ some value) × (row.token ≡ g.base64_encode value))
      × (row.holder_ref ≡ holder_ref)
      × (row.process_identity ≡ process_identity)
      × (row.acquired_at ≡ now)
      × (row.expires_at ≡ now + ttl)
      × (valid_lease_input scope holder_ref process_identity ttl ≡ ok tt)
      × (lease ≡ (if takes (find_lease scope c) now then some row else none))
      × (c' ≡ record c { leases = upsert_row lease_key take_over row c.leases })
unfolding acquire_lease
acquire_lease-ok g scope holder_ref process_identity now ttl none lease c c' h = ground arith
acquire_lease-ok g scope holder_ref process_identity now ttl (some value) lease c c' h = (
  record {
    scope = scope;
    holder_ref = holder_ref;
    process_identity = process_identity;
    token = g.base64_encode value;
    acquired_at = now;
    renewed_at = now;
    expires_at = now + ttl;
  },
  refl,
  (value, refl, refl),
  refl,
  refl,
  refl,
  refl,
  ground arith,
  ground arith,
  ground arith,
)

pub renew_lease-ok :
    (l : LeaseRow) (now ttl : ℕ) (done : Bool) (c c' : Cache)
    → renew_lease l now ttl c ≡ ok (done, c')
    → (valid_lease_input l.scope l.holder_ref l.process_identity ttl ≡ ok tt)
      × (((done ≡ false) × (c' ≡ c))
          ⊎ ((r : LeaseRow) × (fenced_row l c ≡ some r)
              × (text_le r.expires_at now ≡ false)
              × (c' ≡ record c {
                leases = upsert_row lease_key replace (extended now (now + ttl) r) c.leases;
              })))
unfolding renew_lease
renew_lease-ok l now ttl done c c' h = ground arith

pub release_lease-ok :
    (l : LeaseRow) (done : Bool) (c c' : Cache)
    → release_lease l c ≡ ok (done, c')
    → (done ≡ elim (fenced_row l c) [ none ↦ false | some _ ↦ true ])
      × (c' ≡ record c { leases = delete_rows (fenced_by l) c.leases })
unfolding release_lease
release_lease-ok l done c c' h = ground arith

LockStep-to :
    {by : Holder} {a b c : Option (Holder × ℕ)} → b ≡ c → LockStep by a b → LockStep by a c
LockStep-to {by} {a} e step = subst (λ x. LockStep by a x) e step

-- A write of one row is a step of each lock, if it is one of the row's own.
upsert_row-LockStep :
    (by : Holder) (merge : LeaseRow → LeaseRow → LeaseRow) (v : LeaseRow) (rows : List LeaseRow)
    (scope : Bytes)
    → ((r : LeaseRow) → lease_key (merge r v) ≡ lease_key v)
    → LockStep by
        (row_lock (find_row lease_key (v.scope ∷ []) rows))
        (row_lock (some (merged merge v (find_row lease_key (v.scope ∷ []) rows))))
    → LockStep by
        (row_lock (find_row lease_key (scope ∷ []) rows))
        (row_lock (find_row lease_key (scope ∷ []) (upsert_row lease_key merge v rows)))
upsert_row-LockStep by merge v rows scope keeps own =
    elim (Bool-cases (same_key (v.scope ∷ []) (scope ∷ []))) [
      | inl hit ↦
          rw (find_row-upsert_row lease_key merge v (scope ∷ []) rows keeps, hit)
            (subst
              (λ k.
                LockStep by (row_lock (find_row lease_key k rows))
                  (row_lock (some (merged merge v (find_row lease_key (v.scope ∷ []) rows)))))
              ((same_key_iff (v.scope ∷ []) (scope ∷ [])).0 hit) own)
      | inr miss ↦ rw (find_row-upsert_row lease_key merge v (scope ∷ []) rows keeps, miss) stays
    ]

taken-LockStep :
    (row : LeaseRow) (old : Option LeaseRow) (now ttl : ℕ)
    → row.acquired_at ≡ now
    → row.expires_at ≡ now + ttl
    → 0 < ttl
    → ttl ≤ max_scope_sync_lease_ttl
    → ((r : LeaseRow) → old ≡ some r → r.scope ≡ row.scope)
    → LockStep (holder_of row) (row_lock old) (row_lock (some (merged take_over row old)))
taken-LockStep row none now ttl at ends pos small own =
    LockStep-to (ground arith) (takes_free now ttl pos small)
taken-LockStep row (some r) now ttl at ends pos small own =
    elim (Bool-cases (text_le r.expires_at row.acquired_at)) [
      | inl over ↦ LockStep-to (ground arith) (
          takes_over now ttl (omega (arith, text_le-second r.expires_at row.acquired_at over, at))
            pos small)
      | inr live ↦ LockStep-to (rw (live, own r refl) refl) stays
    ]

find_lease-scope :
    (scope : Bytes) (c : Cache) (r : LeaseRow) → find_lease scope c ≡ some r → r.scope ≡ scope
find_lease-scope scope c r found =
    ground (arith, key-find_row lease_key (scope ∷ []) c.leases r found)

holder_of_same :
    (r l : LeaseRow)
    → r.scope ≡ l.scope
    → r.token ≡ l.token
    → r.holder_ref ≡ l.holder_ref
    → r.process_identity ≡ l.process_identity
    → holder_of r ≡ holder_of l
holder_of_same r l s t h p = rw (s, t, h, p) refl

-- The row that a fence selects is the lease's own.
fenced_by-holder : (l r : LeaseRow) → fenced_by l r ≡ true → holder_of r ≡ holder_of l
fenced_by-holder l r h =
    holder_of_same r l (ground (arith, same_iff r.scope l.scope))
      (ground (arith, same_iff r.token l.token))
      (ground (arith, same_iff r.holder_ref l.holder_ref))
      (ground (arith, same_iff r.process_identity l.process_identity))

pub fenced_row-ok :
    (l : LeaseRow) (c : Cache) (r : LeaseRow)
    → fenced_row l c ≡ some r
    → (find_lease l.scope c ≡ some r) × (holder_of r ≡ holder_of l)
fenced_row-ok l c r h = (ground arith, fenced_by-holder l r (ground arith))

extended-LockStep :
    (l r : LeaseRow) (c : Cache) (now ttl : ℕ)
    → find_lease l.scope c ≡ some r
    → holder_of r ≡ holder_of l
    → text_le r.expires_at now ≡ false
    → 0 < ttl
    → ttl ≤ max_scope_sync_lease_ttl
    → LockStep
        (holder_of l)
        (row_lock (find_lease r.scope c))
        (row_lock (some (merged replace (extended now (now + ttl) r) (find_lease r.scope c))))
extended-LockStep l r c now ttl row own live pos small =
    let at : find_lease r.scope c ≡ some r =
      subst (λ (x : Holder). find_lease x.scope c ≡ some r) (sym own) row in
    rw at (
      subst (λ h. LockStep (holder_of l) (some (h, r.expires_at)) (some (h, now + ttl))) (sym own)
        (extends now ttl (text_gt-second r.expires_at now live) pos small))

freed-LockStep :
    (l : LeaseRow) (old : Option LeaseRow)
    → LockStep
        (holder_of l)
        (row_lock old)
        (row_lock (elim old [ none ↦ none | some r ↦ if fenced_by l r then none else some r ]))
freed-LockStep l none = stays
freed-LockStep l (some r) = elim (Bool-cases (fenced_by l r)) [
  | inl e ↦ rw (e, fenced_by-holder l r e) frees
  | inr e ↦ rw e stays
]

-- Every call on the leases is a step of the lock of each scope, made by the call's own holder: a held lock
-- is taken over only in the last second of its time or later, and then by the caller; it is prolonged, by a
-- call before the end of that second, or freed only if the caller's scope, token, holder and process are those
-- that hold it; and no lock is taken or prolonged for more than five minutes from the call.
pub LeaseCall-LockStep :
    {c c' : Cache} (scope : Bytes) (call : LeaseCall c c')
    → IsKeyed lease_key c.leases
    → LockStep (caller call) (lock_of scope c) (lock_of scope c')
LeaseCall-LockStep {c} scope (acquires g s holder process now ttl random lease h) keyed =
    let (row, at, (value, drew, token), named, process_is, from, ends, valid, _, after) =
      acquire_lease-ok g s holder process now ttl random lease c _ h in
    let (pos, small) = valid_lease_input-ttl s holder process ttl valid in
    rw (drew, sym at, sym token, sym named, sym process_is)
      (LockStep-to (ap (lock_of scope) (sym after)) (
        upsert_row-LockStep (holder_of row) take_over row c.leases scope (λ r. refl)
          (taken-LockStep row (find_lease row.scope c) now ttl from ends pos small
            (λ r found. find_lease-scope row.scope c r found))))
LeaseCall-LockStep {c} scope (renews l now ttl done h) keyed =
    let (valid, result) = renew_lease-ok l now ttl done c _ h in
    let (pos, small) = valid_lease_input-ttl l.scope l.holder_ref l.process_identity ttl valid in
    elim result [
      | inl (_, same_cache) ↦ LockStep-to (ap (lock_of scope) (sym same_cache)) stays
      | inr (r, found, live, after) ↦
          let (row, own) = fenced_row-ok l c r found in
          LockStep-to (ap (lock_of scope) (sym after)) (
            upsert_row-LockStep (holder_of l) replace (extended now (now + ttl) r) c.leases scope
              (λ _. refl) (extended-LockStep l r c now ttl row own live pos small))
    ]
LeaseCall-LockStep {c} scope (releases l done h) keyed =
    let (_, after) = release_lease-ok l done c _ h in
    LockStep-to
      (ap row_lock (sym (find_row-delete_rows lease_key (fenced_by l) (scope ∷ []) c.leases keyed))
        ∙ ap (lock_of scope) (sym after))
      (freed-LockStep l (find_lease scope c))
