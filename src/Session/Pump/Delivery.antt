-- ===== src/Session/Pump/Delivery.antt =====
-- What the byte pumps of internal/runtime/session.go deliver.
use mathlib.Core.List.{append_assoc}
use tubo.Session.Pump.{
  more, finished, broken, stopped, clean, writing, ReadAnswer, copied_after, incoming, Copied,
  copy_bytes, Written, write_all, IsSink, Sink, end_copy, ReadEnd, stop_copy,
}
use tubo.Base.{
  ℕ, zero, suc, ◌+◌, ◌≤◌, ◌≡◌, refl, sym, ap, ◌∙◌, ◌≢◌, ◌⊎◌, inl, inr, true, false, some, List, [],
  ◌∷◌, ◌++◌, arith, Bytes, length, take, drop, length-append, ltb, if◌then◌else◌, ltb_iff,
  Bool-cases,
}

length-take : (n : ℕ) (p : Bytes) → n ≤ length p → length (take n p) ≡ n
length-take zero p h = refl
length-take (suc n) [] h = omega arith
length-take (suc n) (c ∷ p) h = ap suc (length-take n p (omega arith))

length-drop : (n : ℕ) (p : Bytes) → n ≤ length p → length (drop n p) + n ≡ length p
length-drop zero p h = omega arith
length-drop (suc n) [] h = omega arith
length-drop (suc n) (c ∷ p) h = omega (arith, length-drop n p (omega arith))

take-append_drop : (n : ℕ) (p : Bytes) → take n p ++ drop n p ≡ p
take-append_drop zero p = refl
take-append_drop (suc n) [] = refl
take-append_drop (suc n) (c ∷ p) = ap (◌∷◌ c) (take-append_drop n p)

-- The front of a text in two pieces.
take-append_take :
    (n m : ℕ) (p : Bytes) → n ≤ length p → take (n + m) p ≡ take n p ++ take m (drop n p)
take-append_take zero m p h = let e : 0 + m ≡ m = omega arith in ap (λ x. take x p) e
take-append_take (suc n) m [] h = absurd (omega arith)
take-append_take (suc n) m (c ∷ p) h =
    let e : suc n + m ≡ suc (n + m) = omega arith in
    ap (λ x. take x (c ∷ p)) e ∙ ap (◌∷◌ c) (take-append_take n m p (omega arith))

module _ (k : Sink) (law : IsSink k) where
  -- What a loop of writes over the bytes leaves.
  abbrev pub IsFront : Bytes → Written k → Type 0
  IsFront p w =
      (w.delivered ≡ take (length w.delivered) p)
      × (length w.delivered ≤ length p)
      × (w.failed ≡ ltb (length w.delivered) (length p))

  IsFront-after :
      (p : Bytes) (n : ℕ) (w : Written k)
      → n ≤ length p
      → IsFront (drop n p) w
      → IsFront p (record w { delivered = take n p ++ w.delivered })
  IsFront-after p n w fits (front, bound, failed) =
      let size : length (take n p ++ w.delivered) ≡ n + length w.delivered =
        omega (arith, length-append (take n p) w.delivered, length-take n p fits) in
      let whole : length (drop n p) + n ≡ length p = length-drop n p fits in
      (
        ap (◌++◌ (take n p)) front
            ∙ sym (take-append_take n (length w.delivered) p fits)
            ∙ ap (λ x. take x p) (sym size),
        omega arith,
        failed
            ∙ ground (
              arith,
              size,
              whole,
              ltb_iff (length w.delivered) (length (drop n p)),
              ltb_iff (length (take n p ++ w.delivered)) (length p),
            ),
      )

  failed_round :
      (rounds : ℕ) (held : k.Held) (c : ℕ) (p : Bytes)
      → (k.write held (c ∷ p)).0.1 ≡ true
      → (w : Written k) × (write_all k (suc rounds) held (c ∷ p) ≡ some w) × IsFront (c ∷ p) w
  unfolding write_all
  failed_round rounds held c p failed =
      let taken = (k.write held (c ∷ p)).0.0 in
      let fits = law.at_most held (c ∷ p) in
      (
        record {
          failed = ltb taken (length (c ∷ p));
          delivered = take taken (c ∷ p);
          held = (k.write held (c ∷ p)).1;
        },
        ground arith,
        rw (length-take taken (c ∷ p) fits) (refl, fits, refl),
      )

  write_all_within :
      (rounds : ℕ) (held : k.Held) (p : Bytes)
      → length p ≤ rounds
      → (w : Written k) × (write_all k rounds held p ≡ some w) × IsFront p w
  unfolding write_all
  write_all_within zero held [] h =
      (record { failed = false; delivered = []; held = held }, refl, (refl, h, refl))
  write_all_within zero held (c ∷ p) h = absurd (omega arith)
  write_all_within (suc rounds) held [] h =
      (record { failed = false; delivered = []; held = held }, refl, (refl, omega arith, refl))
  write_all_within (suc rounds) held (c ∷ p) h =
      let taken = (k.write held (c ∷ p)).0.0 in
      elim (law.some_or_error held (c ∷ p)) [
        | inl failed ↦ failed_round rounds held c p failed
        | inr (inl none_left) ↦ ground arith
        | inr (inr some_taken) ↦ elim (Bool-cases (k.write held (c ∷ p)).0.1) [
          | inl failed ↦ failed_round rounds held c p failed
          | inr fine ↦
              let (w, done, front) =
                write_all_within rounds (k.write held (c ∷ p)).1 (drop taken (c ∷ p))
                  (omega (arith, length-drop taken (c ∷ p) (law.at_most held (c ∷ p)), h)) in
              (
                record w { delivered = take taken (c ∷ p) ++ w.delivered },
                ground arith,
                IsFront-after (c ∷ p) taken w (law.at_most held (c ∷ p)) front,
              )
        ]
      ]

  -- Under the laws of a writer, a round for each byte is enough: the loop of writes ends, what it
  -- delivers is the front of the bytes, and it fails exactly where that is not all of them.
  pub write_all_total :
      (held : k.Held) (p : Bytes)
      → (w : Written k) × (write_all k (length p) held p ≡ some w) × IsFront p w
  write_all_total held p = write_all_within (length p) held p (omega arith)

  -- What a copy may leave of the bytes that come in: it is never left in its writes, it delivers a front
  -- of them and counts no byte that it has not delivered, and a clean end has delivered and counted all.
  abbrev pub IsFaithful : Bytes → Copied k → Type 0
  IsFaithful coming c =
      (c.ended ≢ writing)
      × ((rest : Bytes) × (coming ≡ c.delivered ++ rest))
      × (c.counted ≤ length c.delivered)
      × ((c.ended ≢ clean) ⊎ ((c.delivered ≡ coming) × (c.counted ≡ length c.delivered)))

  IsFaithful-copied_after :
      (chunk coming : Bytes) (c : Copied k)
      → IsFaithful coming c
      → IsFaithful (chunk ++ coming) (copied_after k chunk c)
  IsFaithful-copied_after chunk coming c (ends, (rest, front), counted, whole) =
      let size : length (chunk ++ c.delivered) ≡ length chunk + length c.delivered =
        length-append chunk c.delivered in
      (
        ends,
        (rest, ap (◌++◌ chunk) front ∙ sym (append_assoc chunk c.delivered rest)),
        omega arith,
        elim whole [
          | inl other ↦ inl other
          | inr (all_there, all_counted) ↦ inr (ap (◌++◌ chunk) all_there, omega arith)
        ],
      )

  end_copy-IsFaithful :
      (e : ReadEnd) (held : k.Held) (rs : List ReadAnswer) (rest : Copied k)
      → IsFaithful (incoming rs) rest
      → IsFaithful
          (elim e [ more ↦ incoming rs | finished ↦ [] | broken ↦ [] ])
          (end_copy k e held rest)
  end_copy-IsFaithful more held rs rest h = h
  end_copy-IsFaithful finished held rs rest h =
      (λ e. ground arith, ([], refl), omega arith, inr (refl, refl))
  end_copy-IsFaithful broken held rs rest h =
      (λ e. ground arith, ([], refl), omega arith, inl (λ e. ground arith))

  -- The whole chunk is written, or the copy stops at its front.
  copied_chunk :
      (chunk coming : Bytes) (w : Written k) (c : Copied k)
      → IsFront chunk w
      → IsFaithful coming c
      → IsFaithful
          (chunk ++ coming)
          (if w.failed then stop_copy k stopped w.delivered w.held else copied_after k chunk c)
  copied_chunk chunk coming w c (front, bound, failed) h = elim (Bool-cases w.failed) [
    | inl lost ↦ rw lost (
      λ e. ground arith,
      (
        drop (length w.delivered) chunk ++ coming,
        ap (λ x. x ++ coming) (sym (take-append_drop (length w.delivered) chunk))
            ∙ append_assoc (take (length w.delivered) chunk) (drop (length w.delivered) chunk)
                coming
            ∙ ap (λ x. x ++ (drop (length w.delivered) chunk ++ coming)) (sym front),
      ),
      omega arith,
      inl (λ e. ground arith),
    )
    | inr fine ↦ rw fine (IsFaithful-copied_after chunk coming c h)
  ]

  copy_answer :
      (chunk : Bytes) (e : ReadEnd) (rs : List ReadAnswer) (held : k.Held)
      → ((next : k.Held) → IsFaithful (incoming rs) (copy_bytes k rs next))
      → IsFaithful
          (incoming (record { chunk = chunk; ended = e } ∷ rs))
          (copy_bytes k (record { chunk = chunk; ended = e } ∷ rs) held)
  unfolding copy_bytes incoming
  copy_answer [] e rs held rest = end_copy-IsFaithful e held rs (copy_bytes k rs held) (rest held)
  copy_answer (b ∷ chunk) e rs held rest =
      let (w, done, front) = write_all_total held (b ∷ chunk) in
      rw done (
        copied_chunk (b ∷ chunk) (elim e [ more ↦ incoming rs | finished ↦ [] | broken ↦ [] ]) w
          (end_copy k e w.held (copy_bytes k rs w.held)) front
          (end_copy-IsFaithful e w.held rs (copy_bytes k rs w.held) (rest w.held)))

  -- Under the laws of a writer, one direction of a session is never left in its writes, whatever the
  -- reader answers. It delivers a front of the bytes that came in up to the first error, counts none that
  -- it has not delivered, and where it ends cleanly it has delivered and counted all of them.
  pub copy_bytes-IsFaithful :
      (reads : List ReadAnswer) (held : k.Held)
      → IsFaithful (incoming reads) (copy_bytes k reads held)
  unfolding copy_bytes incoming
  copy_bytes-IsFaithful [] held =
      (λ e. ground arith, ([], refl), omega arith, inl (λ e. ground arith))
  copy_bytes-IsFaithful (r ∷ rs) held =
      copy_answer r.chunk r.ended rs held (copy_bytes-IsFaithful rs)
