-- ===== src/Base/Words.antt =====
-- The widths of the machine's words, and the arithmetic that wraps.
use Prim.Native.Nat.{ℕ, ◌+◌, ◌-◌, ◌/◌, ◌%◌, ◌^◌}
use cpp_torrent.Base.Tests.{◌==◌, if◌then◌else◌}

abbrev pub u16_mod : ℕ
u16_mod = 2 ^ 16

abbrev pub u32_mod : ℕ
u32_mod = 2 ^ 32

abbrev pub size_mod : ℕ
size_mod = 2 ^ 64

-- `size_t` subtraction.
abbrev pub sub_size : ℕ → ℕ → ℕ
sub_size a b = (a + size_mod - b) % size_mod

-- `utils::ceil_div`; a divisor of 0 is a fault that no caller of the model reaches.
abbrev pub ceil_div : ℕ → ℕ → ℕ
ceil_div a b = a / b + (if a % b == 0 then 0 else 1)
