-- ===== src/Store/Stamp.antt =====
-- How internal/store/store.go compares times in SQL: as texts.
use tubo.Base.{
  ℕ, zero, suc, ◌+◌, ◌/◌, ◌%◌, ◌≤◌, ◌<◌, ◌≡◌, Bool, true, false, [], ◌∷◌, ◌++◌, reverse, arith,
  Bytes, lit, bytes_le, ltb, ◌==◌, if◌then◌else◌,
}

-- Times are texts in the layout `time.RFC3339Nano`: a date and time of fixed width, the fraction of
-- the second with its trailing zeros dropped (and no point where it is 0), and `Z`. Up to the year 9999
-- the part of fixed width is ordered as the seconds are.
abbrev pub second : ℕ
second = 1_000_000_000

-- The `k` last decimal digits.
unfoldable pub digits : ℕ → ℕ → Bytes
digits zero n = []
digits (suc k) n = digits k (n / 10) ++ ((48 + n % 10) ∷ [])

unfoldable pub drop_zeros : Bytes → Bytes
drop_zeros [] = []
drop_zeros (c ∷ s) = let rest = drop_zeros s in if c == b'0' then rest else c ∷ s

-- What stands behind the seconds, at a number of nanoseconds.
unfoldable pub fraction : ℕ → Bytes
fraction n =
    if n == 0 then lit "Z" else (b'.' ∷ reverse (drop_zeros (reverse (digits 9 n)))) ++ lit "Z"

-- `a <= b` on the texts of two times.
unfoldable pub text_le : ℕ → ℕ → Bool
text_le a b =
    if a / second == b / second
    then bytes_le (fraction (a % second)) (fraction (b % second))
    else ltb (a / second) (b / second)

pub text_le-second : (a b : ℕ) → text_le a b ≡ true → a / second ≤ b / second
unfolding text_le
text_le-second a b h = ground arith

pub text_gt-second : (a b : ℕ) → text_le a b ≡ false → b / second ≤ a / second
unfolding text_le
text_gt-second a b h = ground arith

-- Where the seconds differ, the texts are in the order of the times.
pub text_le-lt : (a b : ℕ) → a / second < b / second → text_le a b ≡ true
unfolding text_le
text_le-lt a b h = ground arith
