-- ===== src/Scenarios/Toy.antt =====
-- A small concrete library that keeps the laws which internal/accesslease relies on.
use tubo.Base.{
  ℕ, zero, suc, ◌+◌, ◌-◌, ◌*◌, ◌/◌, ◌≡◌, refl, sym, ap, subst, ◌∙◌, Bool, false, ◌||◌, Option, some,
  [], ◌∷◌, ◌++◌, map, arith, Bytes, same, same_refl, length, take, replicate, any, length-append,
  take-append_length, ◌==◌,
}
use tubo.Credential.{
  close_brace, open_brace, IsLibrary, Library, ExactInvite, OwnerBinding, AccessLease,
}

abbrev first : Bytes → ℕ
first [] = 0
first (c ∷ _) = c

abbrev total : Bytes → ℕ
total [] = 0
total (c ∷ s) = c + total s

-- Every byte moved clear of the ASCII range, then `k` fillers.
abbrev pub coded : ℕ → Bytes → Bytes
coded k x = map (λ c. c + 128) x ++ replicate k 200

-- The four members that tell two signed credentials apart here.
abbrev pub digest : Bytes → Bytes → ℕ → ℕ → Option Bytes
digest jti pipe_id expires_at epoch = some (jti ++ pipe_id ++ (expires_at ∷ epoch ∷ []))

-- A key is its first byte. The decoders of JSON answer what they are told to.
abbrev pub toy : Option AccessLease → Option OwnerBinding → Option ExactInvite → Library
toy lease binding invite = record {
  ed_public = λ k. replicate 32 (first k);
  ed_sign = λ k m. replicate 64 (first k + total m);
  ed_verify = λ k m s. same s (replicate 64 (first k + total m));
  sha256 = λ m. m;
  base32_encode = λ x. coded ((length x * 3 + 4) / 5) x;
  base64_encode = λ x. coded ((length x + 2) / 3) x;
  base64_decode = λ y. some (map (λ c. c - 128) (take (length y * 3 / 4) y));
  tokens = λ _. open_brace ∷ close_brace ∷ [];
  marshal_lease_signing = λ l. digest l.jti l.audience_pipe_id l.expires_at l.access_epoch;
  marshal_lease = λ l. digest l.jti l.audience_pipe_id l.expires_at l.access_epoch;
  unmarshal_lease = λ _. lease;
  marshal_binding_signing = λ b. digest b.authority_key b.pipe_id 0 b.epoch;
  marshal_binding = λ b. digest b.authority_key b.pipe_id 0 b.epoch;
  unmarshal_binding = λ _. binding;
  marshal_invite_signing = λ i. digest i.jti i.audience_pipe_id i.expires_at i.access_epoch;
  marshal_invite = λ i. digest i.jti i.audience_pipe_id i.expires_at i.access_epoch;
  unmarshal_invite = λ _. invite;
}

length-replicate : (n c : ℕ) → length (replicate n c) ≡ n
length-replicate zero c = refl
length-replicate (suc n) c = ap suc (length-replicate n c)

length-shift : (x : Bytes) → length (map (λ c. c + 128) x) ≡ length x
length-shift [] = refl
length-shift (c ∷ x) = ap suc (length-shift x)

length-coded : (k : ℕ) (x : Bytes) → length (coded k x) ≡ length x + k
length-coded k x = omega (
  arith,
  length-append (map (λ c. c + 128) x) (replicate k 200),
  length-shift x,
  length-replicate k 200,
)

unshift : (x : Bytes) → map (λ c. c - 128) (map (λ c. c + 128) x) ≡ x
unshift [] = refl
unshift (c ∷ x) = ground (arith, unshift x)

take-coded : (k : ℕ) (x : Bytes) → take (length x) (coded k x) ≡ map (λ c. c + 128) x
take-coded k x =
    subst (λ n. take n (coded k x) ≡ map (λ c. c + 128) x) (length-shift x)
      (take-append_length (map (λ c. c + 128) x) (replicate k 200))

decode-coded :
    (x : Bytes)
    → map
        (λ c. c - 128)
        (take (length (coded ((length x + 2) / 3) x) * 3 / 4) (coded ((length x + 2) / 3) x))
      ≡ x
decode-coded x =
    subst (λ n. map (λ c. c - 128) (take n (coded ((length x + 2) / 3) x)) ≡ x) (sym size)
      (ap (map (λ c. c - 128)) (take-coded ((length x + 2) / 3) x) ∙ unshift x)
  where
    size : length (coded ((length x + 2) / 3) x) * 3 / 4 ≡ length x
    size = let n = length-coded ((length x + 2) / 3) x in omega arith

any-append :
    (p : ℕ → Bool) (x y : Bytes) → any p x ≡ false → any p y ≡ false → any p (x ++ y) ≡ false
any-append p [] y h k = k
any-append p (c ∷ x) y h k = ground (arith, any-append p x y)

any-shift :
    (p : ℕ → Bool) (x : Bytes)
    → ((c : ℕ) → p (c + 128) ≡ false)
    → any p (map (λ c. c + 128) x) ≡ false
any-shift p [] h = refl
any-shift p (c ∷ x) h = ground (arith, h c, any-shift p x h)

any-replicate : (p : ℕ → Bool) (n c : ℕ) → p c ≡ false → any p (replicate n c) ≡ false
any-replicate p zero c h = refl
any-replicate p (suc n) c h = ground (arith, any-replicate p n c h)

any-coded :
    (p : ℕ → Bool) (k : ℕ) (x : Bytes) → ((c : ℕ) → p (c + 128) ≡ false) → any p (coded k x) ≡ false
any-coded p k x h =
    any-append p (map (λ c. c + 128) x) (replicate k 200) (any-shift p x h)
      (any-replicate p k 200 (h 72))

pub toy-IsLibrary :
    (lease : Option AccessLease) (binding : Option OwnerBinding) (invite : Option ExactInvite)
    → IsLibrary (toy lease binding invite)
toy-IsLibrary lease binding invite = record {
  verify_sign = λ k m. same_refl (replicate 64 (first k + total m));
  length_public = λ k. refl;
  length_sign = λ k m. refl;
  decode_encode = λ x. ap some (decode-coded x);
  encode_alphabet =
      λ x. any-coded (λ c. c == 13 || c == 10 || c == 9 || c == 32) _ x (λ c. ground arith);
  encode_unpadded = λ x. any-coded (λ c. c == b'=') _ x (λ c. ground arith);
  length_base32 = λ x. let n = length-coded ((length x * 3 + 4) / 5) x in omega arith;
  length_encode = λ x. let n = length-coded ((length x + 2) / 3) x in omega arith;
}
