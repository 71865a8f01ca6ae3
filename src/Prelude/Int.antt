-- ===== src/Prelude/Int.antt =====
-- Go's `int`: the program only compares such numbers with one another and with 0.
use Prim.Native.Nat.{ℕ, suc, ◌+◌}
use mathlib.Core.Bool.{Bool}
use markov.Prelude.Tests.{ltb}

-- `negsuc n` is -(n + 1).
pub data ℤ : Type 0 where
  pos : ℕ → ℤ
  negsuc : ℕ → ℤ

abbrev pub pos_part : ℤ → ℕ
pos_part (pos n) = n
pos_part (negsuc n) = 0

abbrev pub neg_part : ℤ → ℕ
neg_part (pos n) = 0
neg_part (negsuc n) = suc n

abbrev pub ltb_int : ℤ → ℤ → Bool
ltb_int a b = ltb (pos_part a + neg_part b) (pos_part b + neg_part a)

abbrev pub is_positive : ℤ → Bool
is_positive a = ltb_int (pos 0) a
