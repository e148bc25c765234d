-- ===== src/Protocol/Framing.antt =====
-- Streams of the frames of internal/protocol/frame.go.
use mathlib.Core.List.{append_assoc, append-nil}
use tubo.Base.{
  ℕ, zero, suc, ◌+◌, ◌*◌, ◌/◌, ◌%◌, ◌≤◌, ◌<◌, ◌≡◌, refl, ap, ◌∙◌, true, some, List, [], ◌∷◌, ◌++◌,
  arith, Bytes, length, length-append, take-append_length, drop-append_length, Result, ok, ◌>>=◌,
  bind-ok,
}
use tubo.Protocol.{
  decode_payload, max_frame, put_uint32, FrameError, read_frame, read_payload, write_frame, Codec,
  uint32,
}

-- What `encoding/json` documents: a value is coded by at least one byte, and read back as it was.
pub record IsCodec {A : Type 0} (codec : Codec A) : Type 0 where
  pub nonempty : (value : A) (bytes : Bytes) → codec.marshal value ≡ some bytes → 0 < length bytes
  pub decode_marshal :
      (value : A) (bytes : Bytes)
      → codec.marshal value ≡ some bytes
      → codec.decode bytes ≡ some (value, true)

-- Frames one behind the other, as calls of `WriteFrame` on one stream.
abbrev pub write_frames : {A : Type 0} → Codec A → List A → Bytes → Result FrameError Bytes
write_frames codec [] out = ok out
write_frames codec (value ∷ values) out =
    write_frame codec value out >>= λ next. write_frames codec values next

-- As many calls of `ReadFrame` as there are values to come.
abbrev pub read_frames : {A : Type 0} → Codec A → ℕ → Bytes → Result FrameError (List A × Bytes)
read_frames codec zero s = ok ([], s)
read_frames codec (suc n) s =
    read_frame codec s >>= λ r. read_frames codec n r.1 >>= λ rest. ok (r.0 ∷ rest.0, rest.1)

uint32-put_uint32 :
    (n : ℕ)
    → n < 4294967296
    → uint32 (n / 16777216 % 256) (n / 65536 % 256) (n / 256 % 256) (n % 256) ≡ n
unfolding uint32
uint32-put_uint32 n h = omega arith

length-put_uint32 : (n : ℕ) → length (put_uint32 n) ≡ 4
unfolding put_uint32
length-put_uint32 n = refl

module _ {A : Type 0} (codec : Codec A) (law : IsCodec codec) where
  read_payload-append :
      (value : A) (bytes rest : Bytes)
      → codec.marshal value ≡ some bytes
      → length bytes ≤ max_frame
      → read_payload codec (length bytes) (bytes ++ rest) ≡ ok (value, rest)
  unfolding read_payload decode_payload
  read_payload-append value bytes rest h small = ground (
    arith,
    law.nonempty value bytes h,
    law.decode_marshal value bytes h,
    length-append bytes rest,
    take-append_length bytes rest,
    drop-append_length bytes rest,
  )

  read_frame-put :
      (value : A) (bytes rest : Bytes)
      → codec.marshal value ≡ some bytes
      → length bytes ≤ max_frame
      → read_frame codec ((put_uint32 (length bytes) ++ bytes) ++ rest) ≡ ok (value, rest)
  unfolding read_frame put_uint32
  read_frame-put value bytes rest h small =
      rw (
        uint32-put_uint32 (length bytes) (omega arith),
        read_payload-append value bytes rest h small,
      )

  read_frames-step :
      (value : A) (values : List A) (n : ℕ) (s behind rest : Bytes)
      → read_frame codec s ≡ ok (value, behind)
      → read_frames codec n behind ≡ ok (values, rest)
      → read_frames codec (suc n) s ≡ ok (value ∷ values, rest)
  read_frames-step value values n s behind rest h k = rw (h, k)

  -- A write that succeeds appends one frame.
  write_frame-ok :
      (value : A) (out out' : Bytes)
      → write_frame codec value out ≡ ok out'
      → (bytes : Bytes) × (codec.marshal value ≡ some bytes)
        × (length bytes ≤ max_frame)
        × (out' ≡ out ++ (put_uint32 (length bytes) ++ bytes))
  unfolding write_frame
  write_frame-ok value out out' h = ground arith

  -- Under the laws of the codec, values that are written on a stream, one frame each, take at most
  -- 65540 bytes each and are read back from behind what stood there
  -- before, in their order, and the reader is left before whatever follows.
  pub read_frames-write_frames :
      (values : List A) (out out' : Bytes)
      → write_frames codec values out ≡ ok out'
      → (frames : Bytes) × (out' ≡ out ++ frames)
        × (length frames ≤ length values * (max_frame + 4))
        × ((rest : Bytes) → read_frames codec (length values) (frames ++ rest) ≡ ok (values, rest))
  read_frames-write_frames [] out out' h =
      ([], ground (arith, append-nil out), omega arith, λ rest. refl)
  read_frames-write_frames (value ∷ values) out out' h =
      let (next, first, later) =
        bind-ok (write_frame codec value out) (write_frames codec values) h in
      let (bytes, coded, small, put) = write_frame-ok value out next first in
      let (frames, appended, bound, back) = read_frames-write_frames values next out' later in
      let frame = put_uint32 (length bytes) ++ bytes in
      (
        frame ++ frames,
        appended ∙ ap (λ o. o ++ frames) put ∙ append_assoc out frame frames,
        omega (
          arith,
          bound,
          small,
          length-append frame frames,
          length-append (put_uint32 (length bytes)) bytes,
          length-put_uint32 (length bytes),
        ),
        λ rest.
            ap (read_frames codec (suc (length values))) (append_assoc frame frames rest)
            ∙ read_frames-step value values (length values) (frame ++ (frames ++ rest))
                (frames ++ rest) rest (read_frame-put value bytes (frames ++ rest) coded small)
                (back rest),
      )
