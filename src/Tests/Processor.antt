-- ===== src/Tests/Processor.antt =====
-- The theorems on the processor at concrete inputs.
use wolf_cpuemulator.Common.{ℕ, ◌≡◌, refl, arith, true, false, some, length, ◌+◌}
use wolf_cpuemulator.Cpu.State.{Cpu, is_in_kern_mode, is_irq_allow}
use wolf_cpuemulator.Cpu.Isa.{
  jmp_excond_eq, jmp_excond_ne, jmp_excond_g, jmp_excond_s, jmp_excond_a, jmp_excond_b, icode_jmp,
  icode_alu,
}
use wolf_cpuemulator.Cpu.Fetch.{get_l_register_a, get_l_register_b}
use wolf_cpuemulator.Cpu.Fetch.Registers.{
  get_l_register_a_lem, get_l_register_b_lem, register_a, register_b,
}
use wolf_cpuemulator.Cpu.Execute.{execute}
use wolf_cpuemulator.Cpu.UpdatePc.{jump_condition}
use wolf_cpuemulator.Cpu.Branch.{jump-sub_signed, jump-sub_unsigned}
use wolf_cpuemulator.Cpu.Port.{Mmu}
use wolf_cpuemulator.Cpu.Cycle.{run_instruction}
use wolf_cpuemulator.Cpu.Bounds.Instruction.{run_instruction_lem}
use wolf_cpuemulator.Cpu.Trap.{ecall, eret}
use wolf_cpuemulator.Cpu.Trap.Enter.{ecall_lem, eret-ecall}
use wolf_cpuemulator.Tests.Data.{sub_cpu, fetched}

jump-sub_signed_example :
    let scr = (execute sub_cpu).spe_regs.scr in
    (jump_condition jmp_excond_eq scr ≡ 0)
    × (jump_condition jmp_excond_ne scr ≡ 1)
    × (jump_condition jmp_excond_g scr ≡ 1)
    × (jump_condition jmp_excond_s scr ≡ 0)
jump-sub_signed_example = jump-sub_signed sub_cpu true (record {
  running = refl;
  is_alu = refl;
  is_sub = refl;
  plain = refl;
  word_a = omega arith;
  word_c = omega arith;
})

jump-sub_unsigned_example :
    let scr = (execute sub_cpu).spe_regs.scr in
    (jump_condition jmp_excond_a scr ≡ 1) × (jump_condition jmp_excond_b scr ≡ 0)
jump-sub_unsigned_example = jump-sub_unsigned sub_cpu true (record {
  running = refl;
  is_alu = refl;
  is_sub = refl;
  plain = refl;
  word_a = omega arith;
  word_c = omega arith;
})

-- An MMU that answers every read with the same word, and counts the writes.
abbrev constant_mmu : Mmu ℕ
constant_mmu = record {
  wr_mmu = λ spe addr data' n. (record fetched { stat = 0 }, n + 1);
  rd_mmu = λ spe addr be fetch n. (fetched, n);
}

run_instruction_lem_example :
    (d : Cpu) × (n : ℕ) × (run_instruction constant_mmu sub_cpu 0 ≡ some (d, n))
    × (length d.gen_regs ≡ 15)
run_instruction_lem_example = run_instruction_lem constant_mmu sub_cpu 0 refl

-- A jump whose word names register 2.
get_l_register_a_lem_example : get_l_register_a icode_jmp 0x500000 0 3 ≡ 15
unfolding register_a
get_l_register_a_lem_example =
    get_l_register_a_lem icode_jmp 0x500000 0 3 (omega arith) (omega arith) (omega arith)

get_l_register_b_lem_example : get_l_register_b 1 icode_alu 0x460000 ≡ 3
unfolding register_b
get_l_register_b_lem_example = get_l_register_b_lem 1 icode_alu 0x460000 (omega arith) (omega arith)

ecall_lem_example :
    let d = ecall sub_cpu 3 9 4 in
    (d.pc ≡ 0x8030)
    × (d.ecall_regs.mep ≡ 0x2000)
    × (d.ecall_regs.mreason ≡ 9)
    × (d.ecall_regs.eargs ≡ 4)
    × (d.ecall_regs.mprevmode ≡ 1)
    × (is_irq_allow d.spe_regs.bcr ≡ false)
    × (is_in_kern_mode d.spe_regs.bcr ≡ true)
ecall_lem_example = ecall_lem sub_cpu 3 9 4 (omega arith) (omega arith)

eret-ecall_example :
    let d = eret (ecall sub_cpu 3 9 4) in
    (d.pc ≡ 0x8004)
    × (is_in_kern_mode d.spe_regs.bcr ≡ false)
    × (is_irq_allow d.spe_regs.bcr ≡ false)
eret-ecall_example = eret-ecall sub_cpu 3 9 4 (omega arith)
