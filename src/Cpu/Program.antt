-- ===== src/Cpu/Program.antt =====
-- What the instructions MOV and JMP of include/cpu.h, and those of the ALU with an immediate, are meant
-- to do with the registers, told without the pipeline that runs them, and the words that stand for them
-- in memory, in the order of the fields that src/cpu_fetch.c and `getiData` of src/cpu_decode.c read.
pub mod Word
pub mod Front
pub mod Cut
pub mod Back
pub mod Alu
pub mod Operated
pub mod Mov
pub mod Jmp
pub mod Refines
pub mod Trace
use wolf_cpuemulator.Common.{
  ℕ, ◌+◌, ◌*◌, ◌/◌, ◌%◌, ◌^◌, ◌<◌, ◌≡◌, Bool, true, false, flag, is_set, ◌==◌, if◌then◌else◌,
  get_or, set, ◌&&&◌, ◌|||◌, bit_xor, leb, not, same, ◌&&◌, length, u32, add32, sub32, not32,
  sext16,
}
use wolf_cpuemulator.Common.Int.{pos, ◌+ℤ◌, ◌-ℤ◌, signed32}
use wolf_cpuemulator.Alu.Add.{out_of_range}
use wolf_cpuemulator.Alu.Parity.{is_odd}
use wolf_cpuemulator.Alu.Scr.{scr_of}
use wolf_cpuemulator.Cpu.State.{Cpu}
use wolf_cpuemulator.Cpu.Isa.{
  icode_mov, icode_alu, icode_jmp, jmp_excond_jmp, jmp_excond_eq, jmp_excond_ne, jmp_excond_g,
  jmp_excond_s, jmp_excond_a, jmp_excond_b, alu_fun_code_add, alu_fun_code_sub, alu_fun_code_and,
  alu_fun_code_or, alu_fun_code_xor, alu_fun_code_neg, alu_fun_code_not,
}

-- The operations of the ALU on a register and an immediate. NEG and NOT look at the register alone: NEG
-- is its complement and NOT its negative, as in src/alu.c.
pub data Operation : Type 0 where
  op_add op_sub op_and op_or op_xor op_neg op_not : Operation

-- `store` says whether an ALU instruction writes its result back. The width codes of MOV are those of
-- `mov_be`; offsets count from the jump itself.
pub data Instruction : Type 0 where
  mov_imm : (code r imm : ℕ) → Instruction
  mov_reg : (code r source : ℕ) → Instruction
  alu_imm : (op : Operation) (store : Bool) (r imm : ℕ) → Instruction
  jmp : (cond offset : ℕ) → Instruction

abbrev pub IsInstruction : Instruction → Type 0
IsInstruction (mov_imm code r imm) = (code < 4) × (r < 15) × (imm < 2 ^ 16)
IsInstruction (mov_reg code r source) = (code < 4) × (r < 15) × (source < 15)
IsInstruction (alu_imm op store r imm) = (r < 15) × (imm < 2 ^ 12)
IsInstruction (jmp cond offset) = (cond < 16) × (offset < 2 ^ 16)

-- The 16 bits of an immediate stand in memory with the low byte first, the 12 bits with the low four
-- bits first.
abbrev pub swap16 : ℕ → ℕ
swap16 imm = imm % 256 * 256 + imm / 256

abbrev pub swap12 : ℕ → ℕ
swap12 imm = imm % 16 * 256 + imm / 16

abbrev pub word : ℕ → ℕ → ℕ → ℕ
word type icode rest = type * 2 ^ 31 + icode * 2 ^ 25 + rest

abbrev pub code_of : Operation → ℕ
code_of op_add = alu_fun_code_add
code_of op_sub = alu_fun_code_sub
code_of op_and = alu_fun_code_and
code_of op_or = alu_fun_code_or
code_of op_xor = alu_fun_code_xor
code_of op_neg = alu_fun_code_neg
code_of op_not = alu_fun_code_not

unfoldable pub encode : Instruction → ℕ
encode (mov_imm code r imm) = word 0 icode_mov (r * 2 ^ 21 + code * 2 ^ 19 + swap16 imm)
encode (mov_reg code r source) = word 1 icode_mov (r * 2 ^ 21 + source * 2 ^ 17 + code * 2 ^ 15)
encode (alu_imm op store r imm) =
    word 0 icode_alu (r * 2 ^ 21 + code_of op * 2 ^ 17 + 4 * flag store * 2 ^ 12 + swap12 imm)
encode (jmp cond offset) = word 0 icode_jmp (cond * 2 ^ 16 + swap16 offset)

-- A register that MOV writes: the whole word, its lowest byte, or its two lowest bytes.
abbrev pub moved : ℕ → ℕ → ℕ → ℕ
moved code old v =
    if code == 0
    then v
    else if code == 1
    then old / 2 ^ 8 * 2 ^ 8 + v % 2 ^ 8
    else old / 2 ^ 16 * 2 ^ 16 + v % 2 ^ 16

abbrev pub reg : Cpu → ℕ → ℕ
reg cpu r = get_or cpu.gen_regs r 0

-- The next instruction, with a register and the flags changed
abbrev pub next : Cpu → ℕ → ℕ → ℕ → Cpu
next cpu r v scr = record cpu {
  pc = u32 (cpu.pc + 4);
  gen_regs = set cpu.gen_regs r v;
  spe_regs = record (cpu.spe_regs) { scr = scr };
}

abbrev pub result_of : Operation → ℕ → ℕ → ℕ
result_of op_add a imm = add32 a imm
result_of op_sub a imm = sub32 a imm
result_of op_and a imm = a &&& imm
result_of op_or a imm = a ||| imm
result_of op_xor a imm = bit_xor a imm
result_of op_neg a imm = not32 a
result_of op_not a imm = sub32 0 a

-- Whether the signed result of an addition or a subtraction does not fit 32 bits
abbrev pub overflows : Operation → ℕ → ℕ → Bool
overflows op_add a imm = out_of_range (signed32 a +ℤ signed32 imm +ℤ pos 0)
overflows op_sub a imm = out_of_range (signed32 a -ℤ signed32 imm)
overflows op a imm = false

-- The carry of an addition; a subtraction that does not borrow has one.
abbrev pub carries : Operation → ℕ → ℕ → Bool
carries op_add a imm = leb (2 ^ 32) (a + imm)
carries op_sub a imm = leb imm a
carries op a imm = false

abbrev pub flags_of : Operation → ℕ → ℕ → ℕ
flags_of op a imm =
    let v = result_of op a imm in
    scr_of (overflows op a imm) (carries op a imm) (v == 0) (leb (2 ^ 31) v) (is_odd v)

-- Whether a jump is taken: EQ and NE look at ZF, G and S at the signed order that SF and OF tell after a
-- subtraction, A and B at the carry, which src/alu.c sets where nothing is borrowed.
abbrev pub taken : (cond scr : ℕ) → Bool
taken cond scr =
    let overflow = scr % 2 == 1 in
    let negative = scr / 2 % 2 == 1 in
    let equal = scr / 4 % 2 == 1 in
    let carry = scr / 16 % 2 == 1 in
    if cond == jmp_excond_jmp
    then true
    else if cond == jmp_excond_eq
    then equal
    else if cond == jmp_excond_ne
    then not equal
    else if cond == jmp_excond_g
    then same negative overflow && not equal
    else if cond == jmp_excond_s
    then not (same negative overflow)
    else if cond == jmp_excond_a
    then not carry && not equal
    else cond == jmp_excond_b && carry

-- Code 3 of a MOV from an immediate is meant for the high half; the immediate is shifted up, and then
-- the two lowest bytes are written.
unfoldable pub perform : Instruction → Cpu → Cpu
perform (mov_imm code r imm) cpu =
    next cpu r (moved code (reg cpu r) (if code == 3 then 0 else imm)) cpu.spe_regs.scr
perform (mov_reg code r source) cpu =
    next cpu r (moved code (reg cpu r) (reg cpu source)) cpu.spe_regs.scr
perform (alu_imm op store r imm) cpu =
    let a = reg cpu r in next cpu r (if store then result_of op a imm else a) (flags_of op a imm)
perform (jmp cond offset) cpu = record cpu {
  pc = if taken cond cpu.spe_regs.scr then add32 cpu.pc (sext16 offset) else u32 (cpu.pc + 4);
}
