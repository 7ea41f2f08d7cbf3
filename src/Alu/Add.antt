-- ===== src/Alu/Add.antt =====
-- `alu_add_op` of src/alu.c, as addition and, on a complemented operand, as subtraction.
use wolf_cpuemulator.Common.{ℕ, ◌+◌, ◌-◌, ◌∙◌, ◌/◌, ◌%◌, ◌^◌, ◌<◌, ◌≡◌, refl, arith}
use wolf_cpuemulator.Common.{Bool, true, flag, ◌==◌, ◌||◌, leb, not32, sub32}
use wolf_cpuemulator.Common.{bit_and, u64}
use wolf_cpuemulator.Common.Bits.{bit_and_mask}
use wolf_cpuemulator.Common.Int.{ℤ, pos, negsuc, ◌+ℤ◌, ◌-ℤ◌, signed32, ltb_ℤ}
use wolf_cpuemulator.Alu.{alu_add_op}
use wolf_cpuemulator.Alu.Parity.{is_odd}
use wolf_cpuemulator.Alu.Flags.{HasFlags, update_flag-HasFlags, add_overflows}

-- Whether an integer does not fit 32 signed bits.
unfoldable pub out_of_range : ℤ → Bool
out_of_range x = ltb_ℤ x (negsuc (2 ^ 31 - 1)) || ltb_ℤ (pos (2 ^ 31 - 1)) x

pub wide_sum :
    (a b c : ℕ)
    → a < 2 ^ 32
    → b < 2 ^ 32
    → c < 2
    → u64 (bit_and a 0xffffffff + bit_and b 0xffffffff + c % 2 ^ 8) ≡ a + b + c
wide_sum a b c ha hb hc = omega (arith, bit_and_mask 32 a, bit_and_mask 32 b)

overflow_of_add :
    (a b c : ℕ)
    → a < 2 ^ 32
    → b < 2 ^ 32
    → c < 2
    → add_overflows (a / 2 ^ 31) (b / 2 ^ 31) (flag ((a + b + c) / 2 ^ 31 % 2 == 1))
      ≡ out_of_range (signed32 a +ℤ signed32 b +ℤ pos c)
unfolding out_of_range ◌+ℤ◌
overflow_of_add a b c ha hb hc = ground arith

sign_of_sum : (s : ℕ) → (s / 2 ^ 31 % 2 == 1) ≡ leb (2 ^ 31) (s % 2 ^ 32)
sign_of_sum s = ground arith

low_byte : (s : ℕ) → s % 2 ^ 32 % 2 ^ 8 ≡ s % 2 ^ 8
low_byte s = omega arith

-- Adding two words with a carry of 0 or 1: the result is the sum modulo 2 ^ 32, CF says that the
-- unsigned sum does not fit 32 bits, OF that the signed sum does not, ZF that the result is 0, SF is
-- its highest bit, and PF says that an odd number of bits of its lowest byte is set.
pub alu_add_op_lem :
    (a b c : ℕ)
    → a < 2 ^ 32
    → b < 2 ^ 32
    → c < 2
    → let r = alu_add_op a b c in
      (r.res ≡ (a + b + c) % 2 ^ 32)
      × HasFlags r.scr
          (out_of_range (signed32 a +ℤ signed32 b +ℤ pos c))
          (leb (2 ^ 32) (a + b + c))
          (r.res == 0)
          (leb (2 ^ 31) r.res)
          (is_odd r.res)
unfolding alu_add_op
alu_add_op_lem a b c ha hb hc =
    let s = a + b + c in
    rw (wide_sum a b c ha hb hc) (
      refl,
      rw (← overflow_of_add a b c ha hb hc, ← sign_of_sum s, low_byte s)
          (update_flag-HasFlags a b s true ha hb (omega arith)),
    )

-- The borrow chain: `a - b` is the addition of the complement with a carry.
complement_sum : (a b : ℕ) → a < 2 ^ 32 → b < 2 ^ 32 → (a + not32 b + 1) % 2 ^ 32 ≡ sub32 a b
complement_sum a b ha hb = omega arith

overflow_of_sub :
    (a b : ℕ)
    → a < 2 ^ 32
    → b < 2 ^ 32
    → out_of_range (signed32 a +ℤ signed32 (not32 b) +ℤ pos 1)
      ≡ out_of_range (signed32 a -ℤ signed32 b)
unfolding out_of_range ◌+ℤ◌ ◌-ℤ◌
overflow_of_sub a b ha hb = ground arith

no_borrow : (a b : ℕ) → a < 2 ^ 32 → b < 2 ^ 32 → leb (2 ^ 32) (a + not32 b + 1) ≡ leb b a
no_borrow a b ha hb = ground arith

pub equal_operands : (a b : ℕ) → a < 2 ^ 32 → b < 2 ^ 32 → (sub32 a b == 0) ≡ (a == b)
equal_operands a b ha hb = ground arith

-- Adding the complement of the second word with a carry of 1, as `execute` does for SUB: the
-- result is the difference modulo 2 ^ 32, CF says that nothing was borrowed (the first operand is
-- at least the second, unsigned), OF that the signed difference does not fit 32 bits, ZF that the
-- operands are equal, SF is the highest bit of the result, and PF says that an odd number of
-- bits of its lowest byte is set.
pub alu_add_op-not32 :
    (a b : ℕ)
    → a < 2 ^ 32
    → b < 2 ^ 32
    → let r = alu_add_op a (not32 b) 1 in
      (r.res ≡ sub32 a b)
      × HasFlags r.scr
          (out_of_range (signed32 a -ℤ signed32 b))
          (leb b a)
          (a == b)
          (leb (2 ^ 31) (sub32 a b))
          (is_odd (sub32 a b))
alu_add_op-not32 a b ha hb =
    let (value, flags) = alu_add_op_lem a (not32 b) 1 ha (omega arith) (omega arith) in
    let e = value ∙ complement_sum a b ha hb in
    (
      e,
      rw (← overflow_of_sub a b ha hb, ← no_borrow a b ha hb, ← equal_operands a b ha hb, ← e)
          flags,
    )
