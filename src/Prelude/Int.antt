-- ===== src/Prelude/Int.antt =====
-- Signed machine integers (`isize`) over the native numbers.
use Prim.Native.Nat.{ℕ, suc, ◌+◌, ◌-◌, ◌^◌, min}
use Prim.Native.Nat.{compare, Ordering}

-- `negsuc n` is -(n + 1).
pub data ℤ : Type 0 where
  pos : ℕ → ℤ
  negsuc : ℕ → ℤ

-- a - b
abbrev pub sub_ℕ : ℕ → ℕ → ℤ
sub_ℕ a b = elim (compare a b) [ Ordering.lt ↦ negsuc (b - a - 1) | _ ↦ pos (a - b) ]

-- `isize::saturating_add`
abbrev pub sat_add_isize : ℤ → ℤ → ℤ
sat_add_isize (pos a) (pos b) = pos (min (a + b) (2 ^ 63 - 1))
sat_add_isize (pos a) (negsuc b) = sub_ℕ a (suc b)
sat_add_isize (negsuc a) (pos b) = sub_ℕ b (suc a)
sat_add_isize (negsuc a) (negsuc b) = negsuc (min (a + b + 1) (2 ^ 63 - 1))

-- `x.max(0)`, as a natural number
abbrev pub max_zero : ℤ → ℕ
max_zero (pos a) = a
max_zero (negsuc a) = 0
