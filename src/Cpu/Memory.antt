-- ===== src/Cpu/Memory.antt =====
-- src/cpu_mem.c: the memory stage, over any MMU.
use wolf_cpuemulator.Common.{
  ℕ, ◌==◌, ◌||◌, ◌&&◌, not, flag, is_set, if◌then◌else◌, sub32, ◌>>◌, ◌|||◌,
}
use wolf_cpuemulator.Logic.{through32}
use wolf_cpuemulator.Endian.{get_int_from_4_bytes_l, sep_int_for_4_bytes_l, mov_be}
use wolf_cpuemulator.Cpu.State.{Cpu}
use wolf_cpuemulator.Cpu.Trap.{machine_problem, stop, mmu_convert_to_ereason}
use wolf_cpuemulator.Cpu.Execute.{exflag_mov_mem1, exflag_mov_mem2, set_val_c}
use wolf_cpuemulator.Cpu.Isa.{
  icode_mov, icode_push, icode_pop, icode_pushf, icode_popf, icode_ocall,
}
use wolf_cpuemulator.Cpu.Isa.{icode_ret, icode_ret_exfunc, is_rtype}
use wolf_cpuemulator.Cpu.Port.{Mmu}

-- `wr_data`, `wr_addr` and `rd_addr`
unfoldable pub write_data_of : Cpu → ℕ
write_data_of cpu =
    let t = cpu.temp_data_reg in
    through32 (flag (t.icode == icode_push)) t.val_c
    ||| through32 (flag (t.icode == icode_ocall)) t.val_p

unfoldable pub write_addr_of : Cpu → ℕ
write_addr_of cpu =
    let t = cpu.temp_data_reg in
    through32 (flag (t.icode == icode_ocall || t.icode == icode_push)) t.val_b

unfoldable pub read_addr_of : Cpu → ℕ
read_addr_of cpu =
    let t = cpu.temp_data_reg in
    through32 (flag (t.icode == icode_ret)) t.val_a
    ||| through32 (flag (t.icode == icode_pop)) (sub32 t.val_b 4)

-- The end of an access at `addr`: a status other than BCR_RAM_ERR_OK raises the exception and stops
-- the instruction.
unfoldable pub check_access : Cpu → ℕ → ℕ → Cpu
check_access cpu stat addr =
    if is_set stat then stop (machine_problem cpu (mmu_convert_to_ereason stat) addr) else cpu

-- A read of `addr`. The stack operations keep valC when it fails.
unfoldable pub load_mov : {S : Type 0} → Mmu S → Cpu → ℕ → ℕ → S → Cpu × S
unfolding check_access
load_mov mmu cpu addr be s =
    let (stat, s') = mmu.rd_mmu cpu.spe_regs addr be 0 s in
    (check_access (set_val_c cpu (get_int_from_4_bytes_l stat.bytes)) stat.stat addr, s')

unfoldable pub load_stack : {S : Type 0} → Mmu S → Cpu → ℕ → ℕ → S → Cpu × S
unfolding check_access
load_stack mmu cpu addr be s =
    let (stat, s') = mmu.rd_mmu cpu.spe_regs addr be 0 s in
    (
      if is_set stat.stat
          then check_access cpu stat.stat addr
          else set_val_c cpu (get_int_from_4_bytes_l stat.bytes),
      s',
    )

unfoldable pub store : {S : Type 0} → Mmu S → Cpu → ℕ → ℕ → ℕ → S → Cpu × S
unfolding check_access
store mmu cpu addr value be s =
    let (stat, s') =
      mmu.wr_mmu cpu.spe_regs addr (record { bytes = sep_int_for_4_bytes_l value; be = be }) s in
    (check_access cpu stat.stat addr, s')

unfoldable pub memory_mov : {S : Type 0} → Mmu S → Cpu → ℕ → S → Cpu × S
memory_mov mmu cpu be s =
    let t = cpu.temp_data_reg in
    let mem1 = exflag_mov_mem1 t.ex_flag in
    let mem2 = exflag_mov_mem2 t.ex_flag in
    if not (is_set (is_rtype t.irtype))
    then (cpu, s)
    else if is_set mem1
    then store mmu cpu (through32 (flag (t.icode == icode_mov && is_set mem1)) t.val_c) t.val_b be s
    else if is_set mem2
    then load_mov mmu cpu (through32 (flag (t.icode == icode_mov && is_set mem2)) t.val_c) be s
    else (cpu, s)

unfoldable pub memory : {S : Type 0} → Mmu S → Cpu → S → Cpu × S
memory mmu cpu s =
    let t = cpu.temp_data_reg in
    let be = mov_be (t.ex_flag >> 3) in
    if not (is_set t.noexception)
    then (cpu, s)
    else if t.icode == icode_mov
    then memory_mov mmu cpu be s
    else if t.icode == icode_ret && not (t.ex_func == icode_ret_exfunc)
    then (cpu, s)
    else if t.icode == icode_ret || t.icode == icode_popf || t.icode == icode_pop
    then load_stack mmu cpu (read_addr_of cpu) be s
    else if t.icode == icode_pushf || t.icode == icode_push || t.icode == icode_ocall
    then store mmu cpu (write_addr_of cpu) (write_data_of cpu) be s
    else (cpu, s)
