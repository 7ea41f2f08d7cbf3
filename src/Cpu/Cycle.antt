-- ===== src/Cpu/Cycle.antt =====
-- One cycle of `start_cpu` in src/cpu.c: the stages in its order. The clock's lock is left out; the
-- debugger's wait and the count of the cycles come with the loop.
use wolf_cpuemulator.Common.{Option, some}
use wolf_cpuemulator.Common.Partial.{◌>>=◌}
use wolf_cpuemulator.Cpu.State.{Cpu}
use wolf_cpuemulator.Cpu.Trap.{access_check, ecall_proc}
use wolf_cpuemulator.Cpu.Fetch.{MmuStatus, fetch_data}
use wolf_cpuemulator.Cpu.Decode.{decode}
use wolf_cpuemulator.Cpu.Execute.{execute}
use wolf_cpuemulator.Cpu.Port.{Mmu, Bus}
use wolf_cpuemulator.Cpu.Memory.{memory}
use wolf_cpuemulator.Cpu.Writeback.{writeback}
use wolf_cpuemulator.Cpu.UpdatePc.{update_pc}
use wolf_cpuemulator.Cpu.Irq.{irq_call}

-- The stages up to memory, once the fetch has its answer
unfoldable pub front_stages : Cpu → MmuStatus → Cpu
front_stages cpu answer = ecall_proc (execute (decode (access_check (fetch_data cpu answer))))

-- The instruction: `fetch_data` to `update_PC`
unfoldable pub run_instruction : {S : Type 0} → Mmu S → Cpu → S → Option (Cpu × S)
unfolding front_stages
run_instruction mmu cpu s =
    let (answer, s1) = mmu.rd_mmu cpu.spe_regs cpu.pc 0b1111 1 s in
    let (cpu2, s2) = memory mmu (front_stages cpu answer) s1 in
    writeback cpu2 >>= λ cpu3. some (update_pc cpu3, s2)

unfoldable pub cycle : {S : Type 0} → Mmu S → Bus S → Cpu → S → Option (Cpu × S)
unfolding run_instruction
cycle mmu bus cpu s = run_instruction mmu cpu s >>= λ r. irq_call bus r.0 r.1
