-- ===== src/Base/Int.antt =====
-- Signed integers, as far as the automata compare them.
use Prim.Native.Nat.{ℕ, zero, suc, ◌+◌, ◌-◌}
use mathlib.Core.Bool.{Bool, true, false, not}
use lltdresponder.Base.Tests.{◌==◌, ltb}

-- `negsuc n` is -(n + 1).
pub data ℤ : Type 0 where
  pos : ℕ → ℤ
  negsuc : ℕ → ℤ

abbrev pub int_eq : ℤ → ℤ → Bool
int_eq (pos a) (pos b) = a == b
int_eq (negsuc a) (negsuc b) = a == b
int_eq _ _ = false

abbrev pub int_lt : ℤ → ℤ → Bool
int_lt (pos a) (pos b) = ltb a b
int_lt (pos a) (negsuc b) = false
int_lt (negsuc a) (pos b) = true
int_lt (negsuc a) (negsuc b) = ltb b a

abbrev pub int_le : ℤ → ℤ → Bool
int_le a b = not (int_lt b a)

abbrev pub int_succ : ℤ → ℤ
int_succ (pos a) = pos (suc a)
int_succ (negsuc zero) = pos 0
int_succ (negsuc (suc a)) = negsuc a

-- The absolute value of `a - b`.
abbrev pub int_distance : ℤ → ℕ → ℕ
int_distance (pos a) b = a - b + (b - a)
int_distance (negsuc a) b = suc a + b
