-- ===== src/Session/Pump.antt =====
-- internal/runtime/session.go: the byte pumps of a session.
pub mod Delivery
use tubo.Base.{
  ℕ, zero, suc, ◌+◌, ◌≤◌, ◌<◌, ◌≡◌, ◌⊎◌, Bool, true, false, Option, none, some, List, [], ◌∷◌, ◌++◌,
  Bytes, is_empty, length, take, drop, ltb, if◌then◌else◌,
}

-- `io.Writer`: the state it keeps, and what a write takes of its bytes and whether it fails.
pub record Sink : Type 1 where
  pub Held : Type 0
  pub write : Held → Bytes → (ℕ × Bool) × Held

-- What Go documents of `io.Writer`, and no more than is needed: it takes at most the bytes it is given,
-- and where it takes fewer it reports an error, so without one it takes some.
pub record IsSink (k : Sink) : Type 0 where
  pub at_most : (held : k.Held) (p : Bytes) → (k.write held p).0.0 ≤ length p
  pub some_or_error :
      (held : k.Held) (p : Bytes)
      → ((k.write held p).0.1 ≡ true) ⊎ (is_empty p ≡ true) ⊎ (0 < (k.write held p).0.0)

-- What an `io.Reader` answers: some bytes, and no error, `io.EOF` or another error.
pub data ReadEnd : Type 0 where
  more finished broken : ReadEnd

pub record ReadAnswer : Type 0 where
  pub chunk : Bytes
  pub ended : ReadEnd

pub data CopyEnd : Type 0 where
  -- The reader has not answered yet, or the loop of writes has not ended.
  reading writing : CopyEnd
  -- The direction ended cleanly and was half-closed, or the session was asked to stop.
  clean stopped : CopyEnd

module _ (k : Sink) where
  open k use {Held, write}

  pub record Written : Type 0 where
    pub failed : Bool
    pub delivered : Bytes
    pub held : Held

  pub record Copied : Type 0 where
    pub ended : CopyEnd
    pub delivered : Bytes
    pub counted : ℕ
    pub held : Held

  abbrev pub after : Bytes → Option Written → Option Written
  after before none = none
  after before (some w) = some (record w { delivered = before ++ w.delivered })

  -- `writeAllToTarget` and `writeAllToCarrier`, for at most so many rounds.
  unfoldable pub write_all : ℕ → Held → Bytes → Option Written
  write_all zero held p =
      if is_empty p then some (record { failed = false; delivered = []; held = held }) else none
  write_all (suc rounds) held p =
      let ((taken, failed), next) = write held p in
      let rest = write_all rounds next (drop taken p) in
      if is_empty p
      then some (record { failed = false; delivered = []; held = held })
      else if failed
      then some (record { failed = ltb taken (length p); delivered = take taken p; held = next })
      else after (take taken p) rest

  abbrev pub copied_after : Bytes → Copied → Copied
  copied_after before c = record c {
    delivered = before ++ c.delivered;
    counted = length before + c.counted;
  }

  abbrev pub stop_copy : CopyEnd → Bytes → Held → Copied
  stop_copy ended delivered held = record {
    ended = ended;
    delivered = delivered;
    counted = 0;
    held = held;
  }

  -- What a read's error does once its bytes are written; `rest` is the loop's next round.
  abbrev pub end_copy : ReadEnd → Held → Copied → Copied
  end_copy more held rest = rest
  end_copy finished held rest = stop_copy clean [] held
  end_copy broken held rest = stop_copy stopped [] held

  -- `carrierToTarget` and `targetToCarrier`, at what the reader answers.
  unfoldable pub copy_bytes : List ReadAnswer → Held → Copied
  copy_bytes [] held = stop_copy reading [] held
  copy_bytes (r ∷ rs) held =
      if is_empty r.chunk
      then end_copy r.ended held (copy_bytes rs held)
      else elim (write_all (length r.chunk) held r.chunk) [
        | none ↦ stop_copy writing [] held
        | some w ↦
            if w.failed
            then stop_copy stopped w.delivered w.held
            else copied_after r.chunk (end_copy r.ended w.held (copy_bytes rs w.held))
      ]

-- The bytes that the reader answers up to its first error.
unfoldable pub incoming : List ReadAnswer → Bytes
incoming [] = []
incoming (r ∷ rs) = r.chunk ++ elim r.ended [ more ↦ incoming rs | finished ↦ [] | broken ↦ [] ]
