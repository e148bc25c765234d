-- ===== src/Base/Table.antt =====
-- SQL tables with a primary key: rows in order of insertion, a key of text columns for each row.
use mathlib.Core.Path.{◌≡◌, refl, subst}
use mathlib.Core.Logic.{◌↔◌, ◌≢◌, inl, inr}
use mathlib.Core.Bool.{Bool, true, false, ◌&&◌}
use mathlib.Core.Option.{Option, none, some}
use mathlib.Core.List.{List, [], ◌∷◌}
use native.Mathlib.Omega.{arith}
use tubo.Base.Tests.{if◌then◌else◌, Bool-cases}
use tubo.Base.Lists.{any}
use tubo.Base.Strings.{Bytes, same, same_iff, same_refl}

unfoldable pub same_key : List Bytes → List Bytes → Bool
same_key [] [] = true
same_key [] (b ∷ bs) = false
same_key (a ∷ as') [] = false
same_key (a ∷ as') (b ∷ bs) = let rest = same_key as' bs in same a b && rest

pub same_key_refl : (a : List Bytes) → same_key a a ≡ true
unfolding same_key
same_key_refl [] = refl
same_key_refl (a ∷ as') = ground (arith, same_refl a, same_key_refl as')

same_key→eq : (a b : List Bytes) → same_key a b ≡ true → a ≡ b
unfolding same_key
same_key→eq [] [] h = refl
same_key→eq [] (b ∷ bs) h = cc
same_key→eq (a ∷ as') [] h = cc
same_key→eq (a ∷ as') (b ∷ bs) h = ground (arith, same_iff a b, same_key→eq as' bs)

pub same_key_iff : (a b : List Bytes) → (same_key a b ≡ true) ↔ (a ≡ b)
same_key_iff a b = (same_key→eq a b, λ e. subst (λ c. same_key a c ≡ true) e (same_key_refl a))

module _ {R : Type 0} (key : R → List Bytes) where
  -- `SELECT … WHERE` the key is `k`.
  unfoldable pub find_row : List Bytes → List R → Option R
  find_row k [] = none
  find_row k (r ∷ rs) = let rest = find_row k rs in if same_key (key r) k then some r else rest

  -- `INSERT … ON CONFLICT DO UPDATE`: `merge old new` is the row after a conflict.
  unfoldable pub upsert_row : (R → R → R) → R → List R → List R
  upsert_row merge v [] = v ∷ []
  upsert_row merge v (r ∷ rs) =
      let rest = upsert_row merge v rs in
      if same_key (key r) (key v) then merge r v ∷ rs else r ∷ rest

-- `DELETE … WHERE` the test holds.
unfoldable pub delete_rows : {R : Type 0} → (R → Bool) → List R → List R
delete_rows test [] = []
delete_rows test (r ∷ rs) = let rest = delete_rows test rs in if test r then rest else r ∷ rest

abbrev pub merged : {R : Type 0} → (R → R → R) → R → Option R → R
merged merge v none = v
merged merge v (some r) = merge r v

module _ {R : Type 0} (key : R → List Bytes) where
  pub find_row-upsert_row :
      (merge : R → R → R) (v : R) (k : List Bytes) (rows : List R)
      → ((r : R) → key (merge r v) ≡ key v)
      → find_row key k (upsert_row key merge v rows) ≡ (
          if same_key (key v) k
          then some (merged merge v (find_row key (key v) rows))
          else find_row key k rows)
  unfolding find_row upsert_row
  find_row-upsert_row merge v k [] keeps = refl
  find_row-upsert_row merge v k (r ∷ rs) keeps = elim (Bool-cases (same_key (key r) (key v))) [
    | inl hit ↦ ground (
      arith,
      keeps r,
      same_key_iff (key r) (key v),
      same_key_iff (key v) k,
      same_key_iff (key r) k,
    )
    | inr miss ↦ ground (
      arith,
      find_row-upsert_row merge v k rs keeps,
      same_key_iff (key r) (key v),
      same_key_iff (key v) k,
      same_key_iff (key r) k,
    )
  ]

  -- A row that is found has the key, and passes no deletion that would remove it.
  pub key-find_row :
      (k : List Bytes) (rows : List R) (r : R) → find_row key k rows ≡ some r → key r ≡ k
  unfolding find_row
  key-find_row k [] r h = cc
  key-find_row k (x ∷ rs) r h = ground (arith, key-find_row k rs r, same_key_iff (key x) k)

module _ {R : Type 0} (key : R → List Bytes) where
  -- No key occurs twice.
  abbrev pub IsKeyed : List R → Type 0
  IsKeyed [] = Unit {0}
  IsKeyed (r ∷ rs) = (find_row key (key r) rs ≡ none) × IsKeyed rs

  pub IsKeyed-upsert_row :
      (merge : R → R → R) (v : R) (rows : List R)
      → ((r : R) → key (merge r v) ≡ key v)
      → IsKeyed rows
      → IsKeyed (upsert_row key merge v rows)
  unfolding find_row upsert_row
  IsKeyed-upsert_row merge v [] keeps h = (refl, tt)
  IsKeyed-upsert_row merge v (r ∷ rs) keeps h = elim (Bool-cases (same_key (key r) (key v))) [
    | inl hit ↦ ground (arith, keeps r, same_key_iff (key r) (key v))
    | inr miss ↦ ground (
      arith,
      keeps r,
      find_row-upsert_row key merge v (key r) rs keeps,
      same_key_iff (key r) (key v),
      same_key_iff (key v) (key r),
      IsKeyed-upsert_row merge v rs keeps,
    )
  ]

  find_row-delete_none :
      (test : R → Bool) (k : List Bytes) (rows : List R)
      → find_row key k rows ≡ none
      → find_row key k (delete_rows test rows) ≡ none
  unfolding find_row delete_rows
  find_row-delete_none test k [] h = refl
  find_row-delete_none test k (r ∷ rs) h = ground (arith, find_row-delete_none test k rs)

  pub IsKeyed-delete_rows :
      (test : R → Bool) (rows : List R) → IsKeyed rows → IsKeyed (delete_rows test rows)
  unfolding find_row delete_rows
  IsKeyed-delete_rows test [] h = tt
  IsKeyed-delete_rows test (r ∷ rs) h =
      ground (arith, IsKeyed-delete_rows test rs, find_row-delete_none test (key r) rs)

  -- `DELETE … WHERE` takes away exactly the row that passes the test.
  pub find_row-delete_rows :
      (test : R → Bool) (k : List Bytes) (rows : List R)
      → IsKeyed rows
      → find_row key k (delete_rows test rows)
        ≡ elim (find_row key k rows) [ none ↦ none | some r ↦ if test r then none else some r ]
  unfolding find_row delete_rows
  find_row-delete_rows test k [] h = refl
  find_row-delete_rows test k (r ∷ rs) h = elim (Bool-cases (same_key (key r) k)) [
    | inl hit ↦ ground (
      arith,
      same_key_iff (key r) k,
      find_row-delete_none test (key r) rs,
      find_row-delete_none test k rs,
    )
    | inr miss ↦ ground (arith, find_row-delete_rows test k rs, same_key_iff (key r) k)
  ]

-- What no row has, no row has after a deletion or a write of a row that has it not.
pub any-delete_rows :
    {R : Type 0} (p test : R → Bool) (rows : List R)
    → any p rows ≡ false
    → any p (delete_rows test rows) ≡ false
unfolding delete_rows
any-delete_rows p test [] h = refl
any-delete_rows p test (r ∷ rs) h = ground (arith, any-delete_rows p test rs)

-- Nor does a row have it that passes the deletion's test.
pub any-deleted :
    {R : Type 0} (p test : R → Bool) (rows : List R)
    → ((r : R) → test r ≡ false → p r ≡ false)
    → any p (delete_rows test rows) ≡ false
unfolding delete_rows
any-deleted p test [] h = refl
any-deleted p test (r ∷ rs) h = ground (arith, any-deleted p test rs h, h r)

module _ {R : Type 0} (key : R → List Bytes) where
  pub any-upsert_row :
      (p : R → Bool) (merge : R → R → R) (v : R) (rows : List R)
      → p v ≡ false
      → ((r : R) → p r ≡ false → p (merge r v) ≡ false)
      → any p rows ≡ false
      → any p (upsert_row key merge v rows) ≡ false
  unfolding upsert_row
  any-upsert_row p merge v [] h keeps none_has = ground arith
  any-upsert_row p merge v (r ∷ rs) h keeps none_has =
      ground (arith, keeps r, any-upsert_row p merge v rs h keeps)

  pub any-find_row :
      (p : R → Bool) (k : List Bytes) (rows : List R) (r : R)
      → any p rows ≡ false
      → find_row key k rows ≡ some r
      → p r ≡ false
  unfolding find_row
  any-find_row p k [] r h e = cc
  any-find_row p k (x ∷ rs) r h e = ground (arith, any-find_row p k rs r)

-- A row is found in a table without what is under another key.
pub find_row-spared :
    {R : Type 0} (column : R → Bytes) (k ref : Bytes) (rows : List R)
    → ref ≢ k
    → find_row (λ r. column r ∷ []) (k ∷ []) (delete_rows (λ r. same (column r) ref) rows)
      ≡ find_row (λ r. column r ∷ []) (k ∷ []) rows
unfolding find_row delete_rows same_key
find_row-spared column k ref [] other = refl
find_row-spared column k ref (r ∷ rs) other =
    ground
      (arith, find_row-spared column k ref rs other, same_iff (column r) ref, same_iff (column r) k)

-- And none under that key.
pub find_row-deleted :
    {R : Type 0} (column : R → Bytes) (k : Bytes) (rows : List R)
    → find_row (λ r. column r ∷ []) (k ∷ []) (delete_rows (λ r. same (column r) k) rows) ≡ none
unfolding find_row delete_rows same_key
find_row-deleted column k [] = refl
find_row-deleted column k (r ∷ rs) = ground (arith, find_row-deleted column k rs)
