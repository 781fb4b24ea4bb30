-- ===== src/Prelude/Int.antt =====
-- Signed integers, as far as the queue of waker events needs them. `negsuc n` is -(n + 1).
use Prim.Native.Nat.{ℕ}

pub data ℤ : Type 0 where
  pos : ℕ → ℤ
  negsuc : ℕ → ℤ

-- `-1 - i`.
abbrev pub neg_one_minus : ℤ → ℤ
neg_one_minus (pos n) = negsuc n
neg_one_minus (negsuc n) = pos n

-- `i as usize` of an integer that is not negative.
abbrev pub pos_part : ℤ → ℕ
pos_part (pos n) = n
pos_part (negsuc n) = 0
