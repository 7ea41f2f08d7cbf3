-- ===== src/Cpu/Program/Operated.antt =====
-- The functions of src/alu.c against the operations as they are meant.
use wolf_cpuemulator.Common.{
  ℕ, ◌+◌, ◌%◌, ◌<◌, ◌^◌, ◌≡◌, ◌∙◌, ap, refl, arith, add32, sub32, not32, neg, ◌&&&◌, ◌|||◌, bit_xor,
}
use wolf_cpuemulator.Common.Bits.{bit_and-le, bit_or-lt, bit_xor-lt}
use wolf_cpuemulator.Alu.{
  AluResult, alu_add_op, alu_and_op, alu_or_op, alu_xor_op, alu_neg_op, alu_not_op,
}
use wolf_cpuemulator.Alu.Add.{alu_add_op_lem, alu_add_op-not32, equal_operands}
use wolf_cpuemulator.Alu.Scr.{HasFlags-scr_of, update_flag_zero, alu_add_op-lt}
use wolf_cpuemulator.Cpu.Program.{
  Operation, op_add, op_sub, op_and, op_or, op_xor, op_neg, op_not, code_of, result_of, flags_of,
}
use wolf_cpuemulator.Cpu.Program.Alu.{operated}

plus_zero : (a b : ℕ) → (a + b + 0) % 2 ^ 32 ≡ add32 a b
plus_zero a b = omega arith

pub code_of-lt : (op : Operation) → code_of op < 16
code_of-lt op_add = omega arith
code_of-lt op_sub = omega arith
code_of-lt op_and = omega arith
code_of-lt op_or = omega arith
code_of-lt op_xor = omega arith
code_of-lt op_neg = omega arith
code_of-lt op_not = omega arith

pub AluResult_eq :
    {x : AluResult} {v scr : ℕ} → x.res ≡ v → x.scr ≡ scr → x ≡ record { res = v; scr = scr }
AluResult_eq {x} {v} {scr} e f =
    ap (λ (r : ℕ). record x { res = r }) e ∙ ap (λ (f : ℕ). record x { res = v; scr = f }) f

add_flags :
    (a imm : ℕ) → a < 2 ^ 32 → imm < 2 ^ 32 → (alu_add_op a imm 0).scr ≡ flags_of op_add a imm
add_flags a imm h k =
    let r = alu_add_op a imm 0 in
    let (value, flags) = alu_add_op_lem a imm 0 h k (omega arith) in
    let no_carry : a + imm + 0 ≡ a + imm = omega arith in
    HasFlags-scr_of r.scr (alu_add_op-lt a imm 0 h k (omega arith)) flags
    ∙ rw (value ∙ plus_zero a imm, no_carry) refl

sub_flags :
    (a imm : ℕ)
    → a < 2 ^ 32
    → imm < 2 ^ 32
    → (alu_add_op a (not32 imm) 1).scr ≡ flags_of op_sub a imm
sub_flags a imm h k =
    let (value, flags) = alu_add_op-not32 a imm h k in
    HasFlags-scr_of (alu_add_op a (not32 imm) 1).scr
      (alu_add_op-lt a (not32 imm) 1 h (omega arith) (omega arith)) flags
    ∙ rw (← equal_operands a imm h k) refl

-- The ALU gives the result and the flags that the operation is meant to have, and the result is a word.
pub operated_lem :
    (op : Operation) (a imm : ℕ)
    → a < 2 ^ 32
    → imm < 2 ^ 32
    → ((operated op a imm).res ≡ result_of op a imm)
      × ((operated op a imm).scr ≡ flags_of op a imm)
      × (result_of op a imm < 2 ^ 32)
unfolding alu_and_op alu_or_op alu_xor_op alu_neg_op alu_not_op
operated_lem op_add a imm h k = (
  (alu_add_op_lem a imm 0 h k (omega arith)).0 ∙ plus_zero a imm,
  add_flags a imm h k,
  omega arith,
)
operated_lem op_sub a imm h k = ((alu_add_op-not32 a imm h k).0, sub_flags a imm h k, omega arith)
operated_lem op_and a imm h k =
    let small = bit_and-le a imm in
    (refl, update_flag_zero a imm (a &&& imm) h k (omega arith), omega arith)
operated_lem op_or a imm h k =
    let small = bit_or-lt 32 a imm h k in
    (refl, update_flag_zero a imm (a ||| imm) h k small, small)
operated_lem op_xor a imm h k =
    let small = bit_xor-lt 32 a imm h k in
    (refl, update_flag_zero a imm (bit_xor a imm) h k small, small)
operated_lem op_neg a imm h k =
    (refl, update_flag_zero a 0 (not32 a) h (omega arith) (omega arith), omega arith)
operated_lem op_not a imm h k =
    let same : neg 32 a ≡ sub32 0 a = omega arith in
    (
      same,
      update_flag_zero a 0 (neg 32 a) h (omega arith) (omega arith) ∙ rw same refl,
      omega arith,
    )
