-- ===== src/Scenarios/FrameRuns.antt =====
-- The theorem on frames at two numbers.
use tubo.Base.{
  ℕ, ◌+◌, ◌*◌, ◌≤◌, ◌<◌, ◌≡◌, refl, Bool, true, Option, none, some, [], ◌∷◌, ◌++◌, arith, Bytes,
  is_empty, length, ok,
}
use tubo.Protocol.Framing.{read_frames-write_frames, write_frames, read_frames, IsCodec}
use tubo.Protocol.{put_uint32, Codec, max_frame, write_frame}

abbrev decode_number : Bytes → Option (ℕ × Bool)
decode_number [] = none
decode_number (n ∷ s) = some (n, is_empty s)

-- A number is coded as one byte that holds it.
abbrev numbers : Codec ℕ
numbers = record { marshal = λ n. some (n ∷ []); decode = decode_number }

nonempty_number : (n : ℕ) (bytes : Bytes) → numbers.marshal n ≡ some bytes → 0 < length bytes
nonempty_number n bytes h = ground arith

decode_number-marshal :
    (n : ℕ) (bytes : Bytes) → numbers.marshal n ≡ some bytes → decode_number bytes ≡ some (n, true)
decode_number-marshal n bytes h = ground arith

numbers-IsCodec : IsCodec numbers
numbers-IsCodec = record { nonempty = nonempty_number; decode_marshal = decode_number-marshal }

abbrev two_frames : Bytes
two_frames = 0 ∷ 0 ∷ 0 ∷ 1 ∷ 7 ∷ 0 ∷ 0 ∷ 0 ∷ 1 ∷ 8 ∷ []

write_two : write_frames numbers (7 ∷ 8 ∷ []) (5 ∷ []) ≡ ok (5 ∷ two_frames)
unfolding write_frame put_uint32
write_two = refl

read_frames-write_frames_example :
    (frames : Bytes) × ((5 ∷ two_frames) ≡ (5 ∷ []) ++ frames)
    × (length frames ≤ 2 * (max_frame + 4))
    × ((rest : Bytes) → read_frames numbers 2 (frames ++ rest) ≡ ok (7 ∷ 8 ∷ [], rest))
read_frames-write_frames_example =
    read_frames-write_frames numbers numbers-IsCodec (7 ∷ 8 ∷ []) (5 ∷ []) (5 ∷ two_frames)
      write_two
