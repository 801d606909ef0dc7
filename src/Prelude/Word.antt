-- ===== src/Prelude/Word.antt =====
-- Machine words as native numbers: the largest values, and Rust's saturating operations.
use Prim.Native.Nat.{ℕ, ◌+◌, ◌*◌, min}

abbrev pub u8_mod : ℕ
u8_mod = 256

abbrev pub u16_mod : ℕ
u16_mod = 0x1_0000

abbrev pub u32_mod : ℕ
u32_mod = 0x1_0000_0000

abbrev pub u64_mod : ℕ
u64_mod = 0x1_0000_0000_0000_0000

-- `u64::MAX` and `u128::MAX`
abbrev pub u64_max : ℕ
u64_max = 0xffff_ffff_ffff_ffff

abbrev pub u128_max : ℕ
u128_max = 0xffff_ffff_ffff_ffff_ffff_ffff_ffff_ffff

-- `u64::saturating_add`, `saturating_mul`; `u64::saturating_sub` is `-` on ℕ.
abbrev pub saturating_add : ℕ → ℕ → ℕ
saturating_add a b = min (a + b) u64_max

abbrev pub saturating_mul : ℕ → ℕ → ℕ
saturating_mul a b = min (a * b) u64_max

abbrev pub saturating_mul_u128 : ℕ → ℕ → ℕ
saturating_mul_u128 a b = min (a * b) u128_max
