-- ===== src/Tests/Arithmetic.antt =====
-- The theorems on the ALU, the selectors and the byte order at concrete inputs.
use wolf_cpuemulator.Common.{◌≡◌, arith, true, false}
use wolf_cpuemulator.Common.{not32}
use wolf_cpuemulator.Endian.{data32_mask_be, mov_be}
use wolf_cpuemulator.Endian.Width.{data32_mask_be-mov_be}
use wolf_cpuemulator.Alu.{alu_add_op}
use wolf_cpuemulator.Alu.Parity.{count_bits}
use wolf_cpuemulator.Alu.Flags.{HasFlags}
use wolf_cpuemulator.Alu.Add.{alu_add_op_lem, alu_add_op-not32, out_of_range}
use wolf_cpuemulator.Common.Int.{◌+ℤ◌, ◌-ℤ◌}

-- 2 ^ 31 - 1 and 1: the signed sum overflows.
alu_add_op_lem_example :
    let r = alu_add_op 0x7fffffff 1 0 in
    (r.res ≡ 0x80000000) × HasFlags r.scr true false false true false
unfolding alu_add_op out_of_range ◌+ℤ◌ count_bits
alu_add_op_lem_example = alu_add_op_lem 0x7fffffff 1 0 (omega arith) (omega arith) (omega arith)

-- 5 less 7 borrows.
alu_add_op-not32_example :
    let r = alu_add_op 5 (not32 7) 1 in
    (r.res ≡ 0xfffffffe) × HasFlags r.scr false false false true true
unfolding out_of_range ◌-ℤ◌ count_bits
alu_add_op-not32_example = alu_add_op-not32 5 7 (omega arith) (omega arith)

data32_mask_be-mov_be_example : data32_mask_be 0x11223344 0xaabbccdd (mov_be 1) ≡ 0x112233dd
data32_mask_be-mov_be_example =
    data32_mask_be-mov_be 1 0x11223344 0xaabbccdd (omega arith) (omega arith) (omega arith)
