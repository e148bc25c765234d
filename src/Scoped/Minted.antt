-- ===== src/Scoped/Minted.antt =====
-- The leases that internal/runtime/authority.go mints.
use tubo.Base.{
  ℕ, ◌+◌, ◌≤◌, ◌<◌, ◌≡◌, refl, ap, subst, ◌∙◌, inl, inr, false, Option, some, arith, Bytes, lit,
  same, length, Option-cases, Result, ok, map_err, bind-ok,
}
use tubo.Scoped.{
  ScopedError, epoch_unavailable, scope_text, refresh_lease_ttl, access_lease_ttl, ScopedLibrary,
  Token, skew,
}
use tubo.Store.Exact.{find_revocation, pipe_access, revocation_epoch, Db}
use tubo.Store.Exact.Tables.{epoch_of}
use tubo.Scoped.Server.{mint_leases, own_public, Readings, Draws, AuthorityHandler}
use tubo.Scoped.Tokens.{encode_token, new_token, verify_token, sign_token}
use tubo.Domain.Model.{validate_scope, Scope}
use tubo.Credential.{IsLibrary}
use tubo.Scoped.Signed.{verify_token-sign_token, new_token-check}

lasting : (0 < access_lease_ttl) × (0 < refresh_lease_ttl)
lasting = (omega arith, omega arith)

same_texts :
    (x : Result ScopedError (Bytes × Bytes)) (a b a' b' : Bytes)
    → x ≡ ok (a', b')
    → x ≡ ok (a, b)
    → (a' ≡ a) × (b' ≡ b)
same_texts x a b a' b' h k = ground arith

not_share :
    (same (lit "connect.access") (lit "share.invite") ≡ false)
    × (same (lit "connect.refresh") (lit "share.invite") ≡ false)
unfolding same
not_share = (refl, refl)

revocation_epoch-epoch_of :
    (scope pipe_id : Bytes) (epoch : ℕ) (db : Db)
    → map_err (λ _. epoch_unavailable) (revocation_epoch scope pipe_access pipe_id db) ≡ ok epoch
    → epoch ≡ epoch_of scope pipe_access pipe_id db
unfolding revocation_epoch
revocation_epoch-epoch_of scope pipe_id epoch db h =
    elim (Option-cases (find_revocation scope pipe_access pipe_id db)) [
      | inl e ↦ ground arith
      | inr (r, e) ↦ ground arith
    ]

module _ (g : ScopedLibrary) (law : IsLibrary g.base) where
  -- A text is a lease: an encoded token that verifies under the key at the time, of the kind, for the
  -- subject and the pipe, with the epoch.
  abbrev pub IsLeaseText : Bytes → Bytes → Bytes → Bytes → ℕ → ℕ → Bytes → Type 0
  IsLeaseText public kind subject pipe_id epoch now encoded =
      (t : Token) × (encode_token g t ≡ ok encoded)
      × (verify_token g t public now ≡ ok tt)
      × (t.type ≡ kind)
      × (t.subject ≡ subject)
      × (t.audience ≡ pipe_id)
      × (t.access_epoch ≡ epoch)

  new_token-fields :
      (kind subject audience : Bytes) (scope : Scope) (lifetime minted : ℕ) (random : Option Bytes)
      (t : Token)
      → new_token g kind scope subject audience lifetime random minted ≡ ok t
      → (t.type ≡ kind) × (t.subject ≡ subject) × (t.audience ≡ audience)
  unfolding new_token
  new_token-fields kind subject audience scope lifetime minted random t e = ground arith

  module _ (h : AuthorityHandler) (subject pipe_id : Bytes) (draws : Draws) (at : Readings)
      (db : Db) (valid : validate_scope h.scope ≡ ok tt)
      (subject_fits : (0 < length subject) × (length subject ≤ 8192))
      (pipe_fits : (0 < length pipe_id) × (length pipe_id ≤ 8192)) where
    lease_text :
        (kind value encoded : Bytes) (lifetime minted epoch now : ℕ) (t s : Token)
        → same kind (lit "share.invite") ≡ false
        → length value ≡ 16
        → (0 < minted) × (minted ≤ now + skew) × (now < minted + lifetime) × (0 < lifetime)
        → new_token g kind h.scope subject pipe_id lifetime (some value) minted ≡ ok t
        → sign_token g (record t { access_epoch = epoch }) h.private ≡ ok s
        → encode_token g s ≡ ok encoded
        → IsLeaseText (own_public g h) kind subject pipe_id epoch now encoded
    lease_text kind value encoded lifetime minted epoch now t s other size lives made signed
          written =
        let (verifies, (epoch_kept, subject_kept, audience_kept, type_kept, _)) =
          verify_token-sign_token g law (record t { access_epoch = epoch }) s h.private now
            signed in
        let (of_kind, of_subject, of_pipe) =
          new_token-fields kind subject pipe_id h.scope lifetime minted (some value) t made in
        (
          s,
          written,
          verifies
              ∙ new_token-check g law kind subject pipe_id h.scope lifetime minted now epoch value t
                  other size valid subject_fits pipe_fits lives made,
          type_kept ∙ of_kind,
          subject_kept ∙ of_subject,
          audience_kept ∙ of_pipe,
          epoch_kept,
        )

    -- Under the laws of the library, and for a scope, subject and pipe of valid form and draws of 16
    -- bytes, both minted leases verify under the authority's key as long as they last, for this subject
    -- and pipe, with the pipe's access epoch at the minting.
    pub mint_leases-IsLeaseText :
        (x y a r : Bytes) (now later : ℕ)
        → draws.access ≡ some x
        → draws.refresh ≡ some y
        → length x ≡ 16
        → length y ≡ 16
        → (0 < at.access_minted)
          × (at.access_minted ≤ now + skew)
          × (now < at.access_minted + access_lease_ttl)
        → (0 < at.refresh_minted)
          × (at.refresh_minted ≤ later + skew)
          × (later < at.refresh_minted + refresh_lease_ttl)
        → mint_leases g h subject pipe_id draws at db ≡ ok (a, r)
        → IsLeaseText
            (own_public g h)
            (lit "connect.access")
            subject
            pipe_id
            (epoch_of (scope_text h.scope) pipe_access pipe_id db)
            now
            a
          × IsLeaseText
              (own_public g h)
              (lit "connect.refresh")
              subject
              pipe_id
              (epoch_of (scope_text h.scope) pipe_access pipe_id db)
              later
              r
    unfolding mint_leases
    mint_leases-IsLeaseText x y a r now later dx dy lx ly in_access in_refresh e =
        let (epoch, read, e₁) = bind-ok _ _ e in
        let (t, made, e₂) = bind-ok _ _ e₁ in
        let (t', made', e₃) = bind-ok _ _ e₂ in
        let (s, signed, e₄) = bind-ok _ _ e₃ in
        let (s', signed', e₅) = bind-ok _ _ e₄ in
        let (a', written, e₆) = bind-ok _ _ e₅ in
        let (r', written', e₇) = bind-ok _ _ e₆ in
        let texts = same_texts (ok (a', r')) a r a' r' refl e₇ in
        let current : epoch ≡ epoch_of (scope_text h.scope) pipe_access pipe_id db =
          revocation_epoch-epoch_of (scope_text h.scope) pipe_id epoch db read in
        let at_access =
          lease_text (lit "connect.access") x a access_lease_ttl at.access_minted epoch now t s
            not_share.0 lx (in_access.0, in_access.1, in_access.2, lasting.0)
            (subst
              (λ d.
                new_token g (lit "connect.access") h.scope subject pipe_id access_lease_ttl d
                  at.access_minted
                ≡ ok t)
              dx made)
            signed (written ∙ ap ok texts.0) in
        let at_refresh =
          lease_text (lit "connect.refresh") y r refresh_lease_ttl at.refresh_minted epoch later t'
            s' not_share.1 ly (in_refresh.0, in_refresh.1, in_refresh.2, lasting.1)
            (subst
              (λ d.
                new_token g (lit "connect.refresh") h.scope subject pipe_id refresh_lease_ttl d
                  at.refresh_minted
                ≡ ok t')
              dy made')
            signed' (written' ∙ ap ok texts.1) in
        (rw current at at_access, rw current at at_refresh)
