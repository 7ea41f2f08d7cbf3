-- ===== src/Logic/Select.antt =====
-- What the mask selectors of src/logics/logic_alg.c compute at a condition that is 0 or 1.
use wolf_cpuemulator.Common.{ℕ, ◌%◌, ◌^◌, ◌≡◌, arith, Bool, true, false, flag}
use wolf_cpuemulator.Common.{if◌then◌else◌, u8, u16, u32, u64, bit_and, bit_or}
use wolf_cpuemulator.Common.Bits.{zero-bit_and, mask-bit_and, zero-bit_or, bit_or-zero}
use wolf_cpuemulator.Logic.{through8, through16, through32, through64, mux8, mux32, mux64}

pub through8_if : (b : Bool) (v : ℕ) → through8 (flag b) v ≡ (if b then u8 v else 0)
unfolding through8
through8_if true v = omega (arith, mask-bit_and 8 (u8 v))
through8_if false v = zero-bit_and (u8 v)

through16_if : (b : Bool) (v : ℕ) → through16 (flag b) v ≡ (if b then u16 v else 0)
unfolding through16
through16_if true v = omega (arith, mask-bit_and 16 (u16 v))
through16_if false v = zero-bit_and (u16 v)

through32_if : (b : Bool) (v : ℕ) → through32 (flag b) v ≡ (if b then u32 v else 0)
unfolding through32
through32_if true v = omega (arith, mask-bit_and 32 (u32 v))
through32_if false v = zero-bit_and (u32 v)

through64_if : (b : Bool) (v : ℕ) → through64 (flag b) v ≡ (if b then u64 v else 0)
unfolding through64
through64_if true v = omega (arith, mask-bit_and 64 (u64 v))
through64_if false v = zero-bit_and (u64 v)

-- A selector that has masked one side out.
keep_new : (k m n o : ℕ) → m ≡ n % 2 ^ k → bit_or m (bit_and 0 o) ≡ n % 2 ^ k
keep_new k m n o e = ground (arith, zero-bit_and o, bit_or-zero m)

keep_origin : (k m n o : ℕ) → m ≡ o % 2 ^ k → bit_or (bit_and 0 n) m ≡ o % 2 ^ k
keep_origin k m n o e = ground (arith, zero-bit_and n, zero-bit_or m)

pub mux8_if : (b : Bool) (o n : ℕ) → mux8 (flag b) o n ≡ (if b then u8 n else u8 o)
unfolding mux8
mux8_if true o n = keep_new 8 _ n (u8 o) (omega (arith, mask-bit_and 8 (u8 n)))
mux8_if false o n = keep_origin 8 _ (u8 n) o (omega (arith, mask-bit_and 8 (u8 o)))

pub mux32_if : (b : Bool) (o n : ℕ) → mux32 (flag b) o n ≡ (if b then u32 n else u32 o)
unfolding mux32
mux32_if true o n = keep_new 32 _ n (u32 o) (omega (arith, mask-bit_and 32 (u32 n)))
mux32_if false o n = keep_origin 32 _ (u32 n) o (omega (arith, mask-bit_and 32 (u32 o)))

mux64_if : (b : Bool) (o n : ℕ) → mux64 (flag b) o n ≡ (if b then u64 n else u64 o)
unfolding mux64
mux64_if true o n = keep_new 64 _ n (u64 o) (omega (arith, mask-bit_and 64 (u64 n)))
mux64_if false o n = keep_origin 64 _ (u64 n) o (omega (arith, mask-bit_and 64 (u64 o)))

pub through8_zero : (v : ℕ) → through8 0 v ≡ 0
through8_zero v = through8_if false v

pub through8_one : (v : ℕ) → through8 1 v ≡ u8 v
through8_one v = through8_if true v

pub through32_zero : (v : ℕ) → through32 0 v ≡ 0
through32_zero v = through32_if false v

pub through32_one : (v : ℕ) → through32 1 v ≡ u32 v
through32_one v = through32_if true v

-- The selectors of src/logics/logic_alg.c, at a condition that is 0 or 1: `Through` passes the value
-- or gives 0, and `Mux` gives the new value or the original one, each cut to its width.
selectors_lem :
    (b : Bool) (o n : ℕ)
    → (through8 (flag b) n ≡ (if b then n % 2 ^ 8 else 0))
      × (through16 (flag b) n ≡ (if b then n % 2 ^ 16 else 0))
      × (through32 (flag b) n ≡ (if b then n % 2 ^ 32 else 0))
      × (through64 (flag b) n ≡ (if b then n % 2 ^ 64 else 0))
      × (mux8 (flag b) o n ≡ (if b then n % 2 ^ 8 else o % 2 ^ 8))
      × (mux32 (flag b) o n ≡ (if b then n % 2 ^ 32 else o % 2 ^ 32))
      × (mux64 (flag b) o n ≡ (if b then n % 2 ^ 64 else o % 2 ^ 64))
selectors_lem b o n = (
  through8_if b n,
  through16_if b n,
  through32_if b n,
  through64_if b n,
  mux8_if b o n,
  mux32_if b o n,
  mux64_if b o n,
)
