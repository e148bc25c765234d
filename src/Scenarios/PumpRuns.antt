-- ===== src/Scenarios/PumpRuns.antt =====
-- The byte pumps of internal/runtime/session.go at a writer of short writes.
use tubo.Base.{
  ℕ, zero, suc, ◌≤◌, ◌<◌, ◌≡◌, refl, ◌⊎◌, inl, inr, true, false, some, List, [], ◌∷◌, ◌++◌, arith,
  Bytes, lit, is_empty, length, take,
}
use tubo.Session.Pump.Delivery.{write_all_total, IsFront, copy_bytes-IsFaithful, IsFaithful}
use tubo.Session.Pump.{
  incoming, write_all, IsSink, ReadAnswer, Sink, Written, copy_bytes, more, finished, clean,
}

-- A writer that takes three bytes at a time, and keeps what it took.
abbrev slow_sink : Sink
slow_sink = record {
  Held = Bytes;
  write = λ held p. ((length (take 3 p), false), held ++ take 3 p);
}

take-short : (n : ℕ) (p : Bytes) → length (take n p) ≤ length p
take-short zero p = omega arith
take-short (suc n) [] = omega arith
take-short (suc n) (c ∷ p) = omega (arith, take-short n p)

slow_takes : (p : Bytes) → (is_empty p ≡ true) ⊎ (0 < length (take 3 p))
slow_takes [] = inl refl
slow_takes (c ∷ p) = inr (omega arith)

slow_sink-IsSink : IsSink slow_sink
slow_sink-IsSink = record {
  at_most = λ held p. take-short 3 p;
  some_or_error = λ held p. inr (slow_takes p);
}

write_all_total_example :
    (w : Written slow_sink) × (write_all slow_sink 5 [] (lit "hello") ≡ some w)
    × IsFront slow_sink slow_sink-IsSink (lit "hello") w
write_all_total_example = write_all_total slow_sink slow_sink-IsSink [] (lit "hello")

abbrev two_reads : List ReadAnswer
two_reads =
    record { chunk = lit "hello "; ended = more }
    ∷ record { chunk = lit "world"; ended = finished }
    ∷ []

copy_bytes-IsFaithful_example :
    IsFaithful slow_sink slow_sink-IsSink (incoming two_reads) (copy_bytes slow_sink two_reads [])
copy_bytes-IsFaithful_example = copy_bytes-IsFaithful slow_sink slow_sink-IsSink two_reads []

-- Both chunks arrive, and the copy ends cleanly.
two_reads-clean : copy_bytes slow_sink two_reads [] ≡ record {
  ended = clean;
  delivered = lit "hello world";
  counted = 11;
  held = lit "hello world";
}
unfolding copy_bytes write_all
two_reads-clean = refl
