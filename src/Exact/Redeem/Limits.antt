-- ===== src/Exact/Redeem/Limits.antt =====
-- How long, and for whom, a redemption of internal/exactauthority/redeem.go yields a lease.
use tubo.Base.{ℕ, ◌+◌, ◌≤◌, ◌<◌, ◌≡◌, sym, subst, true, arith, Bytes, ok}
use tubo.Exact.Redeem.Effects.{redeem_exact_invite-ok}
use tubo.Store.Exact.{redeem_invite_and_accept, Db}
use tubo.Store.Exact.Tables.{Reach}
use tubo.Credential.{AccessLease, ExactInvite, Library}
use tubo.Credential.Lease.{effective_now, verify_window}
use tubo.Credential.Invite.{verify_invite_fields, decode_invite, verify_invite}
use tubo.Credential.Lease.Verify.{verify_window_iff}
use tubo.Exact.Redeem.{bootstrap_lifetime, RedeemCall, redeem_exact_invite}
use tubo.Store.Exact.Redemptions.{redeem_invite_and_accept_once}

verify_invite-window :
    (g : Library) (i : ExactInvite) (now wall : ℕ) (pipe_id : Bytes)
    → verify_invite g i now wall pipe_id ≡ ok tt
    → verify_window i.issued_at i.not_before i.expires_at (effective_now wall now) ≡ ok tt
unfolding verify_invite verify_invite_fields
verify_invite-window g i now wall pipe_id h = ground arith

bootstrap_bounded :
    (lifetime expires_at now : ℕ)
    → now < expires_at
    → now + bootstrap_lifetime lifetime expires_at now ≤ expires_at
unfolding bootstrap_lifetime
bootstrap_bounded lifetime expires_at now h = ground arith

-- The lease that a redemption at a set time (not the zero time) yields is over no later than the
-- invite that it came from.
pub redeem_exact_invite-expires :
    (g : Library) (c : RedeemCall) (db db' : Db) (l : AccessLease) (invite : ExactInvite)
    → 0 < c.now
    → decode_invite g c.encoded_invite ≡ ok invite
    → redeem_exact_invite g c db ≡ (ok l, db')
    → l.expires_at ≤ invite.expires_at
redeem_exact_invite-expires g c db db' l invite set coded h =
    let (scope, invite', auth, session_id, v, committed, _, minted) =
      redeem_exact_invite-ok g c db db' l h in
    let same_invite : invite' ≡ invite = ground (arith, coded, v.coded) in
    let window =
      (verify_window_iff invite'.issued_at invite'.not_before invite'.expires_at
          (effective_now c.wall c.now)).0
        (verify_invite-window g invite' c.now c.wall invite'.audience_pipe_id v.verified) in
    let live : c.now < invite'.expires_at = ground (arith, window) in
    ground (
      arith,
      minted.times,
      bootstrap_bounded c.lease_lifetime invite'.expires_at c.now live,
      same_invite,
    )

-- Two redemptions of one invite that succeed, with any history between them, are by one recipient.
pub redeem_exact_invite_once :
    (g : Library) (c₁ c₂ : RedeemCall) (db₀ db₁ db₂ db₃ : Db) (l₁ l₂ : AccessLease)
    → c₁.encoded_invite ≡ c₂.encoded_invite
    → redeem_exact_invite g c₁ db₀ ≡ (ok l₁, db₁)
    → Reach db₁ db₂
    → redeem_exact_invite g c₂ db₂ ≡ (ok l₂, db₃)
    → (c₁.recipient_public ≡ c₂.recipient_public) × (db₃ ≡ db₂)
redeem_exact_invite_once g c₁ c₂ db₀ db₁ db₂ db₃ l₁ l₂ same_invite h r k =
    let (_, i₁, _, s₁, v₁, first, _, _) = redeem_exact_invite-ok g c₁ db₀ db₁ l₁ h in
    let (_, i₂, _, s₂, v₂, second, _, _) = redeem_exact_invite-ok g c₂ db₂ db₃ l₂ k in
    let one : i₁ ≡ i₂ = ground (arith, v₁.coded, v₂.coded, same_invite) in
    redeem_invite_and_accept_once i₁.jti i₁.audience_pipe_id s₁ s₂ c₁.recipient_public
      c₂.recipient_public i₁.access_epoch i₂.access_epoch c₁.now c₂.now c₁.alive c₂.alive true true
      db₀ db₁ db₂ db₃ first r
      (subst
        (λ i.
          redeem_invite_and_accept i.jti i.audience_pipe_id s₂ c₂.recipient_public i₂.access_epoch
            c₂.now c₂.alive db₂
          ≡ ok (true, db₃))
        (sym one) second)
