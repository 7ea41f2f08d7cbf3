-- ===== src/Tests/Programs.antt =====
-- The theorems on whole instructions at the words of src/asm.
use wolf_cpuemulator.Common.{
  ℕ, ◌≡◌, refl, arith, true, false, List, [], ◌∷◌, ◌==◌, if◌then◌else◌, ◌+◌, ◌<◌, ◌^◌, zero, suc,
  replicate, get_or,
}
use wolf_cpuemulator.Cpu.State.{Cpu}
use wolf_cpuemulator.Cpu.Port.{Mmu}
use wolf_cpuemulator.Cpu.Cycle.{run_instruction}
use wolf_cpuemulator.Cpu.Program.{
  Instruction, mov_imm, alu_imm, op_add, op_sub, jmp, encode, perform,
}
use wolf_cpuemulator.Cpu.Program.Front.{answer_of}
use wolf_cpuemulator.Cpu.Program.Refines.{HasWords, Reaches, run_instruction-encode}
use wolf_cpuemulator.Cpu.Program.Trace.{end, then_by, run_instructions, run_instructions-Trace}
use wolf_cpuemulator.Tests.Data.{cpu_with, in_flight}

-- The words that the listings alu_text.S and loop.S give
encode-listings :
    (encode (mov_imm 2 0 0xffff) ≡ 0x0210ffff)
    × (encode (alu_imm op_add true 0 1) ≡ 0x04004100)
    × (encode (alu_imm op_sub false 2 0) ≡ 0x044c0000)
    × (encode (mov_imm 1 2 1) ≡ 0x02480100)
    × (encode (jmp 6 0xffdc) ≡ 0x4006dcff)
unfolding encode
encode-listings = (refl, refl, refl, refl, refl)

-- movw r1,0xffff; add r1,0x1; subn r3,0; jne ffdc, from address 0x2000 on
abbrev listing : List Instruction
listing =
    mov_imm 2 0 0xffff ∷ alu_imm op_add true 0 1 ∷ alu_imm op_sub false 2 0 ∷ jmp 6 0xffdc ∷ []

-- A memory of these four words, which counts the fetches
abbrev rom : Mmu ℕ
rom = record {
  wr_mmu = λ spe addr data' n. (answer_of 0, n);
  rd_mmu = λ spe addr be fetch n. (
    answer_of (
        if addr == 0x2000
        then 0x0210ffff
        else if addr == 0x2004
        then 0x04004100
        else if addr == 0x2008
        then 0x044c0000
        else 0x4006dcff),
    n + 1,
  );
}

abbrev before : Cpu
before = cpu_with (in_flight 0 0 0 0 0 0) 0

abbrev after : Cpu
after = perform (jmp 6 0xffdc) (
    perform (alu_imm op_sub false 2 0)
      (perform (alu_imm op_add true 0 1) (perform (mov_imm 2 0 0xffff) before)))

sevens : (n r : ℕ) → get_or (replicate n 7) r 0 < 2 ^ 32
sevens zero r = omega arith
sevens (suc n) zero = omega arith
sevens (suc n) (suc r) = sevens n r

before-HasWords : HasWords before
before-HasWords = record { fifteen = refl; words = sevens 15 }

run_instructions-Trace_example : Reaches (run_instructions rom 4 before 0) after 4
unfolding encode perform
run_instructions-Trace_example =
    run_instructions-Trace rom {is = listing} {c = before} {c' = after}
      (then_by (omega arith) refl
        (then_by (omega arith) refl (then_by (omega arith) refl (then_by (omega arith) refl end))))
      before-HasWords

run_instruction-encode_example :
    Reaches (run_instruction rom before 0) (perform (mov_imm 2 0 0xffff) before) 1
unfolding encode
run_instruction-encode_example =
    run_instruction-encode rom 0 1 (mov_imm 2 0 0xffff) before (omega arith) before-HasWords refl
