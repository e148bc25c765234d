-- ===== src/Exact/Bound.antt =====
-- What the bindings and keys that internal/exactauthority/redeem.go, renew.go and localauthority.go
-- accept are.
use tubo.Base.{
  ◌≡◌, ◌≢◌, sym, ap, ◌∙◌, ◌⊎◌, inl, inr, true, some, Option-cases, [], arith, Bytes, same_iff,
  length, ok, Result-cases,
}
use tubo.Credential.{Library, OwnerBinding, OwnerAuthority, ExactInvite}
use tubo.Credential.Encoding.{
  public_string, verify_pipe_owner, public_from_string, pipe_id_from_owner,
}
use tubo.Credential.Binding.{verify_owner_binding, decode_owner_binding, verify_owner_authority}
use tubo.Credential.Binding.Verify.{
  IsBound, IsSignedBinding, verify_owner_binding-IsSignedBinding, verify_pipe_owner-derives,
}
use tubo.Exact.{Authority, Loader, from_binding, load}
use tubo.Exact.Redeem.{check_invite_binding}
use tubo.Exact.Renew.{RenewCall, check_renewal_authority}

-- The authority's key is the stored one, of its full length, and is the one that its owner's binding
-- names, apart from the owner's.
pub record IsLoaded (g : Library) (loader : Loader) (auth : Authority) : Type 0 where
  pub stored : loader.stored_key ≡ some auth.private
  pub full : length auth.private ≡ 64
  pub same_binding : auth.binding ≡ loader.binding
  pub signed : (owner : Bytes) × IsSignedBinding g loader.binding owner
  pub bound :
      (public_string g (g.ed_public auth.private) ≡ [])
      ⊎ ((loader.binding).authority_key ≡ public_string g (g.ed_public auth.private))
  pub dedicated : (loader.binding).authority_key ≢ (loader.binding).owner

module _ (g : Library) where
  verify_owner_authority-ok :
      (b : OwnerBinding) (authority_key : Bytes) (o : OwnerAuthority)
      → verify_owner_authority g b authority_key ≡ ok o
      → ((owner : Bytes) × (verify_owner_binding g b ≡ ok owner))
        × ((authority_key ≡ []) ⊎ (b.authority_key ≡ authority_key))
        × (o.authority_key ≡ b.authority_key)
        × (o.owner ≡ b.owner)
  unfolding verify_owner_authority
  verify_owner_authority-ok b authority_key o h = elim (Result-cases (verify_owner_binding g b)) [
    | inr (e, lost) ↦ absurd (ground arith)
    | inl (owner, verified) ↦ (
      (owner, verified),
      ground (arith, same_iff b.authority_key authority_key),
      ground arith,
      ground arith,
    )
  ]

  load-parts :
      (loader : Loader) (auth : Authority)
      → load g loader ≡ ok auth
      → (loader.stored_key ≡ some auth.private)
        × (length auth.private ≡ 64)
        × (auth.binding ≡ loader.binding)
        × (verify_owner_authority g loader.binding (public_string g (g.ed_public auth.private))
            ≡ ok auth.owner)
        × ((auth.owner).authority_key ≢ (auth.owner).owner)
  unfolding load from_binding
  load-parts loader auth h = elim (Option-cases loader.stored_key) [
    | inl missing ↦ absurd (ground arith)
    | inr (private, there) ↦
        elim (Result-cases
          (verify_owner_authority g loader.binding (public_string g (g.ed_public private)))) [
            | inr (e, lost) ↦ absurd (ground arith)
            | inl (o, verified) ↦ ground (arith, same_iff o.authority_key o.owner)
          ]
  ]

  -- An authority that loads is the one that the binding names.
  pub load-IsLoaded :
      (loader : Loader) (auth : Authority) → load g loader ≡ ok auth → IsLoaded g loader auth
  load-IsLoaded loader auth h =
      let (stored, full, same_binding, verified, apart) = load-parts loader auth h in
      let ((owner, signed), bound, key, named) =
        verify_owner_authority-ok loader.binding (public_string g (g.ed_public auth.private))
          auth.owner verified in
      record {
        stored = stored;
        full = full;
        same_binding = same_binding;
        signed = (owner, verify_owner_binding-IsSignedBinding g loader.binding owner signed);
        bound = bound;
        dedicated = λ e. apart (key ∙ e ∙ sym named);
      }

  check_invite_binding-parts :
      (invite : ExactInvite) (b : OwnerBinding)
      → check_invite_binding g invite ≡ ok b
      → (owner : Bytes) × (decode_owner_binding g invite.binding ≡ ok b)
        × (verify_owner_binding g b ≡ ok owner)
        × ((key : Bytes) × (public_from_string g b.owner ≡ ok key)
            × (verify_pipe_owner g invite.audience_pipe_id key ≡ true))
        × (b.authority_key ≡ invite.issuer)
        × (b.pipe_id ≡ invite.audience_pipe_id)
  unfolding check_invite_binding
  check_invite_binding-parts invite b h =
      elim (Result-cases (decode_owner_binding g invite.binding)) [
        | inr (e, lost) ↦ absurd (ground arith)
        | inl (b', read) ↦ elim (Result-cases (verify_owner_binding g b')) [
          | inr (e, lost) ↦ absurd (ground arith)
          | inl (owner, verified) ↦ elim (Result-cases (public_from_string g b'.owner)) [
            | inr (e, lost) ↦ absurd (ground arith)
            | inl (key, named) ↦ (
              owner,
              ground arith,
              ground arith,
              (key, ground arith, ground arith),
              ground (arith, same_iff b'.authority_key invite.issuer),
              ground (arith, same_iff b'.pipe_id invite.audience_pipe_id),
            )
          ]
        ]
      ]

  -- The invite's binding is its issuer's, for its pipe, by the pipe's owner.
  pub check_invite_binding-IsBound :
      (invite : ExactInvite) (b : OwnerBinding)
      → check_invite_binding g invite ≡ ok b
      → (owner : Bytes) × IsBound g invite.binding invite.audience_pipe_id invite.issuer b owner
  check_invite_binding-IsBound invite b h =
      let (owner, read, verified, (key, named, derives), issuer, pipe) =
        check_invite_binding-parts invite b h in
      let signed = verify_owner_binding-IsSignedBinding g b owner verified in
      let same_owner : key ≡ owner = ground (arith, signed.owned_by) in
      (
        owner,
        (
          read,
          signed,
          verify_pipe_owner-derives g invite.audience_pipe_id key derives
              ∙ ap (pipe_id_from_owner g) same_owner,
          issuer,
          pipe,
        ),
      )

  check_renewal_authority-parts :
      (c : RenewCall) (auth : Authority)
      → check_renewal_authority g c ≡ ok auth
      → (load g c.loader ≡ ok auth)
        × ((b : OwnerBinding) × (owner : Bytes) × (decode_owner_binding g c.owner_binding ≡ ok b)
            × (verify_owner_binding g b ≡ ok owner)
            × ((key : Bytes) × (public_from_string g b.owner ≡ ok key)
                × (verify_pipe_owner g c.pipe_id key ≡ true))
            × (b.authority_key ≡ public_string g (g.ed_public auth.private))
            × (b.pipe_id ≡ c.pipe_id))
  unfolding check_renewal_authority
  check_renewal_authority-parts c auth h =
      elim (Result-cases (decode_owner_binding g c.owner_binding)) [
        | inr (e, lost) ↦ absurd (ground arith)
        | inl (b, read) ↦ elim (Result-cases (verify_owner_binding g b)) [
          | inr (e, lost) ↦ absurd (ground arith)
          | inl (owner, verified) ↦ elim (Result-cases (load g c.loader)) [
            | inr (e, lost) ↦ absurd (ground arith)
            | inl (auth', loaded) ↦
                let same_authority : auth' ≡ auth = ground arith in
                (
                  ground arith,
                  (
                    b,
                    owner,
                    read,
                    verified,
                    ground arith,
                    ground (
                      arith,
                      same_iff b.authority_key (public_string g (g.ed_public auth'.private)),
                      same_authority,
                    ),
                    ground (arith, same_iff b.pipe_id c.pipe_id),
                  ),
                )
          ]
        ]
      ]

  -- The relationship's binding is the loaded authority's, for its pipe, by the pipe's owner.
  pub check_renewal_authority-IsBound :
      (c : RenewCall) (auth : Authority)
      → check_renewal_authority g c ≡ ok auth
      → IsLoaded g c.loader auth
        × ((b : OwnerBinding) × (owner : Bytes) × IsBound g c.owner_binding c.pipe_id
              (public_string g (g.ed_public auth.private))
              b
              owner)
  check_renewal_authority-IsBound c auth h =
      let (loaded, (b, owner, read, verified, (key, named, derives), issuer, pipe)) =
        check_renewal_authority-parts c auth h in
      let signed = verify_owner_binding-IsSignedBinding g b owner verified in
      let same_owner : key ≡ owner = ground (arith, signed.owned_by) in
      (
        load-IsLoaded c.loader auth loaded,
        (
          b,
          owner,
          (
            read,
            signed,
            verify_pipe_owner-derives g c.pipe_id key derives
                ∙ ap (pipe_id_from_owner g) same_owner,
            issuer,
            pipe,
          ),
        ),
      )
