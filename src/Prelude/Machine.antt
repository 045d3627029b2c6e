-- ===== src/Prelude/Machine.antt =====
-- 64-bit machine integers (`usize`, `u64`, `isize`): their largest values and saturating steps.
use Prim.Native.Nat.{ℕ, ◌+◌, ◌-◌, ◌^◌, min}

abbrev pub u64_max : ℕ
u64_max = 2 ^ 64 - 1

abbrev pub usize_max : ℕ
usize_max = 2 ^ 64 - 1

abbrev pub u16_max : ℕ
u16_max = 2 ^ 16 - 1

abbrev pub isize_max : ℕ
isize_max = 2 ^ 63 - 1

-- `usize::saturating_add`; on the natural numbers `-` is `saturating_sub`.
abbrev pub sat_add : ℕ → ℕ → ℕ
sat_add a b = min (a + b) usize_max
