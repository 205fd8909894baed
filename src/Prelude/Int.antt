-- ===== src/Prelude/Int.antt =====
-- Signed integers over the native numbers: `negsuc n` is -(n + 1).
use Prim.Native.Nat.{ℕ, suc, ◌+◌, ◌-◌, ◌≤◌}
use mathlib.Core.Bool.{Bool}
use openclaw_memory_os.Prelude.Tests.{ltb, leb, if◌then◌else◌}

pub data ℤ : Type 0 where
  pos : ℕ → ℤ
  negsuc : ℕ → ℤ

abbrev pub pos_part : ℤ → ℕ
pos_part (pos n) = n
pos_part (negsuc n) = 0

abbrev pub neg_part : ℤ → ℕ
neg_part (pos n) = 0
neg_part (negsuc n) = suc n

infix 50 ◌≤ℤ◌
abbrev pub ◌≤ℤ◌ : ℤ → ℤ → Type 0
a ≤ℤ b = pos_part a + neg_part b ≤ pos_part b + neg_part a

abbrev pub ltb_ℤ : ℤ → ℤ → Bool
ltb_ℤ a b = ltb (pos_part a + neg_part b) (pos_part b + neg_part a)

-- The sum and the difference with a natural number.
abbrev pub plus_ℕ : ℤ → ℕ → ℤ
plus_ℕ (pos m) n = pos (m + n)
plus_ℕ (negsuc m) n = if leb n m then negsuc (m - n) else pos (n - suc m)

abbrev pub minus_ℕ : ℤ → ℕ → ℤ
minus_ℕ (pos m) n = if leb n m then pos (m - n) else negsuc (n - suc m)
minus_ℕ (negsuc m) n = negsuc (m + n)
