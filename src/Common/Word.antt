-- ===== src/Common/Word.antt =====
-- Machine words: the casts, shifts, negation and complement of C's unsigned types.
use Prim.Native.Nat.{ℕ, ◌+◌, ◌-◌, ◌*◌, ◌/◌, ◌%◌, ◌^◌, bit_and, bit_or}
use wolf_cpuemulator.Common.Tests.{ltb, if◌then◌else◌}

-- A cast to `w` bits; a bit-field of `w` bits stores the same.
abbrev pub wrap : ℕ → ℕ → ℕ
wrap w n = n % 2 ^ w

abbrev pub u8 : ℕ → ℕ
u8 n = n % 2 ^ 8

abbrev pub u16 : ℕ → ℕ
u16 n = n % 2 ^ 16

abbrev pub u32 : ℕ → ℕ
u32 n = n % 2 ^ 32

abbrev pub u64 : ℕ → ℕ
u64 n = n % 2 ^ 64

infixl 75 ◌<<◌ ◌>>◌
abbrev pub ◌<<◌ : ℕ → ℕ → ℕ
x << k = x * 2 ^ k

abbrev pub ◌>>◌ : ℕ → ℕ → ℕ
x >> k = x / 2 ^ k

-- `-x` on an unsigned type of `w` bits, for `x` of that type.
abbrev pub neg : ℕ → ℕ → ℕ
neg w x = (2 ^ w - x) % 2 ^ w

-- `~x`, `x - y` on `uint32_t`.
abbrev pub not32 : ℕ → ℕ
not32 x = 2 ^ 32 - 1 - x

abbrev pub sub32 : ℕ → ℕ → ℕ
sub32 x y = (x + 2 ^ 32 - y) % 2 ^ 32

abbrev pub add32 : ℕ → ℕ → ℕ
add32 x y = (x + y) % 2 ^ 32

-- `((int32_t) x) >> k` as a pattern: the sign bit is copied in.
abbrev pub sar32 : ℕ → ℕ → ℕ
sar32 x k = if ltb x (2 ^ 31) then x >> k else not32 (not32 x >> k)

-- `(int16_t) v` added to a `uint32_t`: the pattern that is added.
abbrev pub sext16 : ℕ → ℕ
sext16 v = if ltb v (2 ^ 15) then v else v + 2 ^ 32 - 2 ^ 16

infixl 62 ◌&&&◌
infixl 60 ◌|||◌
abbrev pub ◌&&&◌ : ℕ → ℕ → ℕ
◌&&&◌ = bit_and

abbrev pub ◌|||◌ : ℕ → ℕ → ℕ
◌|||◌ = bit_or
