-- ===== src/UseCase/Share/Owned.antt =====
-- What an invite of internal/usecase/share.go is for.
use tubo.Base.{
  ℕ, ◌+◌, ◌≤◌, ◌<◌, ◌≡◌, sym, subst, ap, ◌∙◌, inl, inr, Option, some, arith, Bytes, same_iff,
  length, ok, Result-cases, Option-cases,
}
use tubo.Domain.Model.{PipeSpec}
use tubo.Credential.{Library, IsLibrary, ExactInvite, max_clock_skew}
use tubo.Credential.Encoding.{pipe_id_from_owner}
use tubo.Credential.Binding.{encode_owner_binding, decode_owner_binding}
use tubo.Credential.Invite.{new_exact_invite, encode_invite, verify_invite}
use tubo.Credential.Invite.Mint.{verify_invite-new_exact_invite, new_exact_invite-fields}
use tubo.Exact.{Authority}
use tubo.Store.Resources.{SpecLibrary, Resources, pipe}
use tubo.UseCase.{UseCases, Readings, default_invite_ttl}
use tubo.UseCase.Run.{present, looked_up, Lookup-cases}
use tubo.UseCase.Share.{
  ShareExactResult, owned_pipe, redemption_locator, current_epoch, provision_authority, mint_share,
  share_exact, shared_authority,
}

module _ (g : Library) (j : SpecLibrary) (u : UseCases) (r : Readings) where
  -- The pipe is stored, and the private key in its key file derives its identifier.
  abbrev pub IsOwned : Bytes → Resources → PipeSpec → Bytes → Type 0
  IsOwned pipe_ref db spec owner =
      (key_file : Bytes) × (looked_up (pipe j pipe_ref db) ≡ present spec key_file)
      × (u.load_key key_file ≡ some owner)
      × (pipe_id_from_owner g (g.ed_public owner) ≡ spec.pipe_id)

  owned_pipe-ok :
      (pipe_ref : Bytes) (db : Resources) (spec : PipeSpec) (owner : Bytes)
      → owned_pipe g j u pipe_ref db ≡ ok (spec, owner)
      → IsOwned pipe_ref db spec owner
  unfolding owned_pipe
  owned_pipe-ok pipe_ref db spec owner h = elim (Lookup-cases (looked_up (pipe j pipe_ref db))) [
    | inl (old, key_file, found) ↦ elim (Option-cases (u.load_key key_file)) [
      | inl lost ↦ absurd (ground arith)
      | inr (private, own) ↦ (
        key_file,
        ground arith,
        ground arith,
        ground (arith, same_iff (pipe_id_from_owner g (g.ed_public private)) old.pipe_id),
      )
    ]
    | inr (inl absent) ↦ absurd (ground arith)
    | inr (inr (e, lost)) ↦ absurd (ground arith)
  ]

  minted_invite-ok :
      (random : Option Bytes) (spec : PipeSpec) (authority : Authority) (epoch : ℕ)
      (result : ShareExactResult)
      → mint_share g r random spec authority epoch ≡ ok result
      → (invite : ExactInvite) × (new_exact_invite g authority.private authority.binding
            spec.pipe_id r.now default_invite_ttl epoch random
          ≡ ok invite)
        × (encode_invite g invite ≡ ok result.invite)
        × (result.pipe_id ≡ spec.pipe_id)
        × (result.expires_at ≡ invite.expires_at)
  unfolding mint_share
  minted_invite-ok random spec authority epoch result h =
      elim (Result-cases (
        new_exact_invite g authority.private authority.binding spec.pipe_id r.now default_invite_ttl
          epoch random)) [
            | inr (e, lost) ↦ absurd (ground arith)
            | inl (invite, minted) ↦ elim (Result-cases (encode_invite g invite)) [
              | inr (e, lost) ↦ absurd (ground arith)
              | inl (text, coded) ↦ (invite, minted, ground arith, ground arith, ground arith)
            ]
          ]

  -- Whose the authority of a share is.
  shared_authority-ok :
      (pipe_ref : Bytes) (db : Resources) (spec : PipeSpec) (authority : Authority) (epoch : ℕ)
      → shared_authority g j u pipe_ref db ≡ ok (spec, authority, epoch)
      → ((owner : Bytes) × IsOwned pipe_ref db spec owner) × (current_epoch u spec ≡ ok epoch)
  unfolding shared_authority
  shared_authority-ok pipe_ref db spec authority epoch h =
      elim (Result-cases (owned_pipe g j u pipe_ref db)) [
        | inr (e, lost) ↦ absurd (ground arith)
        | inl ((own, owner), owned) ↦ elim (Result-cases (redemption_locator u own)) [
          | inr (e, lost) ↦ absurd (ground arith)
          | inl (address, located) ↦ elim (Result-cases (current_epoch u own)) [
            | inr (e, lost) ↦ absurd (ground arith)
            | inl (at, current) ↦
                elim (Result-cases (provision_authority g u own owner address at)) [
                  | inr (e, lost) ↦ absurd (ground arith)
                  | inl (issuer, provisioned) ↦
                      let is : own ≡ spec = ground arith in
                      (
                        (
                          owner,
                          owned_pipe-ok pipe_ref db spec owner
                              (owned ∙ ap (λ (p : PipeSpec). ok (p, owner)) is),
                        ),
                        ground arith,
                      )
                ]
          ]
        ]
      ]

-- Under the laws of the library, and where the binding of the share's authority is read back from its text, a
-- share that succeeds at a set time with 16 random bytes is of a stored pipe whose key file has the key that
-- derives its identifier; the invite carries the pipe's current epoch, and verifies for the pipe until the ten
-- minutes are over at which the answer says that it expires.
pub share_exact-verifies :
    (g : Library) (law : IsLibrary g) (j : SpecLibrary) (u : UseCases) (r : Readings)
    (random pipe_ref : Bytes) (db : Resources) (result : ShareExactResult) (later wall : ℕ)
    → length random ≡ 16
    → 0 < r.now
    → ((spec : PipeSpec) (authority : Authority) (epoch : ℕ) (text : Bytes)
        → shared_authority g j u pipe_ref db ≡ ok (spec, authority, epoch)
        → encode_owner_binding g authority.binding ≡ ok text
        → decode_owner_binding g text ≡ ok authority.binding)
    → share_exact g j u r (some random) pipe_ref db ≡ ok result
    → 0 < later
    → r.now ≤ later + max_clock_skew
    → later < result.expires_at
    → (spec : PipeSpec) × (owner : Bytes) × (invite : ExactInvite) × IsOwned g j u r pipe_ref db
        spec owner
      × (result.pipe_id ≡ spec.pipe_id)
      × (encode_invite g invite ≡ ok result.invite)
      × (current_epoch u spec ≡ ok invite.access_epoch)
      × (result.expires_at ≡ r.now + default_invite_ttl)
      × (verify_invite g invite later wall result.pipe_id ≡ ok tt)
unfolding share_exact
share_exact-verifies g law j u r random pipe_ref db result later wall size set reads shared given
      early late =
    elim (Result-cases (shared_authority g j u pipe_ref db)) [
      | inr (e, lost) ↦ absurd (ground arith)
      | inl ((spec, authority, epoch), got) ↦
          let ((owner, owned), current) =
            shared_authority-ok g j u r pipe_ref db spec authority epoch got in
          let (invite, minted, coded, id, expires) =
            minted_invite-ok g j u r (some random) spec authority epoch result (ground arith) in
          let (at_epoch, ends) =
            new_exact_invite-fields g authority.private authority.binding spec.pipe_id r.now
              default_invite_ttl epoch (some random) invite minted in
          (
            spec,
            owner,
            invite,
            owned,
            id,
            coded,
            current ∙ ap ok (sym at_epoch),
            expires ∙ ends,
            ap (verify_invite g invite later wall) id
                ∙ verify_invite-new_exact_invite g law authority.private authority.binding
                    spec.pipe_id r.now default_invite_ttl epoch random invite later wall size set
                    (λ text coded. reads spec authority epoch text got coded) minted given early
                    (subst (λ (n : ℕ). later < n) (expires ∙ ends) late),
          )
    ]
