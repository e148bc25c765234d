-- ===== src/Store/Discovery/Written.antt =====
-- The snapshot's records of internal/store/store.go together: one scope, no id twice, and what writing
-- them leaves alone.
use tubo.Base.{
  ℕ, ◌≡◌, refl, sym, subst, ◌∙◌, ◌⊎◌, inl, inr, true, false, List, [], ◌∷◌, map, arith, Bytes,
  same_refl, same_iff, contains_string, ok, bind-ok, same_key, IsKeyed,
}
use tubo.Store.Discovery.Members.{put_discovered-IsKeyed, put_discovered-kept}
use tubo.Store.Cache.{find_record, record_key, Cache, Record}
use tubo.Store.Records.{owned_locally, put_discovered_record_tx}
use tubo.Store.Discovery.{check_members, put_members}

-- An element at some place of a list.
abbrev pub At : {A : Type 0} → A → List A → Type 0
At x [] = ⊥
At x (y ∷ ys) = (x ≡ y) ⊎ At x ys

abbrev pub ids : List Record → List Bytes
ids = map (λ m. m.pipe_id)

-- What `check_members` lets pass: one scope, and no id twice.
module _ (scope : Bytes) where
  check_members-unseen :
      (x : Bytes) (seen : List Bytes) (rs : List Record)
      → check_members scope seen rs ≡ ok tt
      → contains_string x seen ≡ true
      → contains_string x (ids rs) ≡ false
  unfolding check_members contains_string
  check_members-unseen x seen [] h e = refl
  check_members-unseen x seen (r ∷ rs) h e =
      ground (arith, check_members-unseen x (r.pipe_id ∷ seen) rs, same_iff r.pipe_id x)

  pub check_members-cons :
      (seen : List Bytes) (r : Record) (rs : List Record)
      → check_members scope seen (r ∷ rs) ≡ ok tt
      → (r.scope ≡ scope)
        × (contains_string r.pipe_id (ids rs) ≡ false)
        × (check_members scope (r.pipe_id ∷ seen) rs ≡ ok tt)
  unfolding check_members contains_string
  check_members-cons seen r rs h = ground (
    arith,
    same_iff r.scope scope,
    same_refl r.pipe_id,
    check_members-unseen r.pipe_id (r.pipe_id ∷ seen) rs,
  )

  pub At-scope :
      (seen : List Bytes) (m : Record) (rs : List Record)
      → check_members scope seen rs ≡ ok tt
      → At m rs
      → m.scope ≡ scope
  At-scope seen m [] h at = elim at [ ]
  At-scope seen m (r ∷ rs) h (inl e) = ground (arith, check_members-cons seen r rs)
  At-scope seen m (r ∷ rs) h (inr there) =
      At-scope (r.pipe_id ∷ seen) m rs (check_members-cons seen r rs h).2 there

pub At-contains :
    (m : Record) (rs : List Record) → At m rs → contains_string m.pipe_id (ids rs) ≡ true
unfolding contains_string
At-contains m [] at = elim at [ ]
At-contains m (r ∷ rs) (inl e) = ground (arith, same_refl r.pipe_id)
At-contains m (r ∷ rs) (inr there) = ground (arith, At-contains m rs there)

module _ (now : ℕ) where
  pub put_members-IsKeyed :
      (rs : List Record) (c c' : Cache)
      → put_members now rs c ≡ ok c'
      → IsKeyed record_key c.records
      → IsKeyed record_key c'.records
  unfolding put_members
  put_members-IsKeyed [] c c' h keyed = ground arith
  put_members-IsKeyed (r ∷ rs) c c' h keyed =
      let (mid, first, rest) = bind-ok (put_discovered_record_tx r now c) (put_members now rs) h in
      put_members-IsKeyed rs mid c' rest (put_discovered-IsKeyed r now c mid first keyed)

  pub put_members-kept :
      (scope pipe_id : Bytes) (rs : List Record) (c c' : Cache)
      → put_members now rs c ≡ ok c'
      → ((m : Record) → At m rs → same_key (record_key m) (scope ∷ pipe_id ∷ []) ≡ false)
        ⊎ (owned_locally (find_record scope pipe_id c) ≡ true)
      → find_record scope pipe_id c' ≡ find_record scope pipe_id c
  unfolding put_members
  put_members-kept scope pipe_id [] c c' h outside = ground arith
  put_members-kept scope pipe_id (r ∷ rs) c c' h outside =
      let (mid, first, rest) = bind-ok (put_discovered_record_tx r now c) (put_members now rs) h in
      let head_kept : find_record scope pipe_id mid ≡ find_record scope pipe_id c =
        put_discovered-kept r now c mid first scope pipe_id
          (elim outside [ inl other ↦ inl (other r (inl refl)) | inr owned ↦ inr owned ]) in
      put_members-kept scope pipe_id rs mid c' rest (elim outside [
        | inl other ↦ inl (λ m there. other m (inr there))
        | inr owned ↦ inr (subst (λ o. owned_locally o ≡ true) (sym head_kept) owned)
      ])
      ∙ head_kept
