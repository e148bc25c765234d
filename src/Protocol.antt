-- ===== src/Protocol.antt =====
-- internal/protocol/frame.go: frames of a length and a JSON value on a stream of bytes.
pub mod Framing
use tubo.Base.{
  ℕ, ◌+◌, ◌*◌, ◌/◌, ◌%◌, Bool, not, ◌||◌, Option, [], ◌∷◌, ◌++◌, Bytes, length, take, drop, ltb,
  ◌==◌, Result, ok, err, ◌>>=◌, ◌>>◌, fail_if, or_fail,
}

abbrev pub max_frame : ℕ
max_frame = 65536

pub data FrameError : Type 0 where
  marshal_failed frame_too_large short_read invalid_size invalid_payload trailing_payload :
      FrameError

-- `encoding/json` at one type of values: `json.Marshal`, and a strict decoder's first `Decode`, with
-- whether nothing is left behind the value.
pub record Codec (A : Type 0) : Type 0 where
  pub marshal : A → Option Bytes
  pub decode : Bytes → Option (A × Bool)

-- `binary.BigEndian.PutUint32`.
unfoldable pub put_uint32 : ℕ → Bytes
put_uint32 n = (n / 16777216 % 256) ∷ (n / 65536 % 256) ∷ (n / 256 % 256) ∷ (n % 256) ∷ []

-- `binary.BigEndian.Uint32`.
unfoldable pub uint32 : ℕ → ℕ → ℕ → ℕ → ℕ
uint32 a b c d = a * 16777216 + b * 65536 + c * 256 + d

module _ {A : Type 0} (codec : Codec A) where
  open codec use {marshal, decode}

  -- `WriteFrame`: what has been written so far, and behind it. The writer itself does not fail here.
  unfoldable pub write_frame : A → Bytes → Result FrameError Bytes
  write_frame value out = do
    data' ← or_fail (marshal value) marshal_failed
    fail_if (ltb max_frame (length data')) frame_too_large
    ok (out ++ (put_uint32 (length data') ++ data'))

  -- What `ReadFrame` does with a payload.
  unfoldable pub decode_payload : Bytes → Result FrameError A
  decode_payload bytes = do
    (value, ended) ← or_fail (decode bytes) invalid_payload
    fail_if (not ended) trailing_payload
    ok value

  -- `ReadFrame` behind the four bytes of the size.
  unfoldable pub read_payload : ℕ → Bytes → Result FrameError (A × Bytes)
  read_payload n s = do
    fail_if (n == 0 || ltb max_frame n) invalid_size
    fail_if (ltb (length s) n) short_read
    value ← decode_payload (take n s)
    ok (value, drop n s)

  -- `ReadFrame`: the value, and what is left of the stream.
  unfoldable pub read_frame : Bytes → Result FrameError (A × Bytes)
  read_frame (a ∷ b ∷ c ∷ d ∷ s) = read_payload (uint32 a b c d) s
  read_frame _ = err short_read
