-- ===== src/Cpu/Registers.antt =====
-- `getRegVal` and `write_reg_val` of src/cpu.c.
pub mod Laws
use wolf_cpuemulator.Common.{ℕ, ltb, ◌==◌, if◌then◌else◌, get_or, set, u32, ◌&&&◌}
use wolf_cpuemulator.Cpu.State.{Cpu, max_gen_register_count}
use wolf_cpuemulator.Cpu.Isa.{cpu_reg_pc, cpu_reg_spe_bcr, cpu_reg_spe_scr, cpu_reg_spe_flags}
use wolf_cpuemulator.Cpu.Isa.{cpu_reg_spe_pgbase, cpu_reg_ecall_ecbase, cpu_reg_ecall_icbase}
use wolf_cpuemulator.Cpu.Isa.{cpu_reg_ecall_earg}

unfoldable pub get_reg_val : Cpu → ℕ → ℕ
get_reg_val cpu lreg =
    if ltb lreg max_gen_register_count
    then get_or cpu.gen_regs lreg 0
    else if lreg == cpu_reg_spe_pgbase
    then cpu.spe_regs.pg_mode_base_addr_reg
    else if lreg == cpu_reg_ecall_ecbase
    then cpu.ecall_regs.mpc
    else if lreg == cpu_reg_ecall_icbase
    then cpu.irq_regs.mpc
    else if lreg == cpu_reg_spe_bcr
    then cpu.spe_regs.bcr
    else if lreg == cpu_reg_spe_flags
    then cpu.spe_regs.flags
    else if lreg == cpu_reg_pc
    then cpu.pc
    else if lreg == cpu_reg_spe_scr
    then cpu.spe_regs.scr
    else if lreg == cpu_reg_ecall_earg
    then cpu.ecall_regs.eargs
    else 0

-- The `switch` of `write_reg_val`.
unfoldable pub write_special_reg : Cpu → ℕ → ℕ → Cpu
write_special_reg cpu regnum value =
    if regnum == cpu_reg_ecall_ecbase
    then record cpu { ecall_regs = record (cpu.ecall_regs) { mep = value } }
    else if regnum == cpu_reg_ecall_icbase
    then record cpu { irq_regs = record (cpu.irq_regs) { mep = value } }
    else if regnum == cpu_reg_spe_bcr
    then record cpu { spe_regs = record (cpu.spe_regs) { bcr = value &&& 0xff } }
    else if regnum == cpu_reg_spe_scr
    then record cpu { spe_regs = record (cpu.spe_regs) { scr = value &&& 0xff } }
    else if regnum == cpu_reg_spe_pgbase
    then record cpu { spe_regs = record (cpu.spe_regs) { pg_mode_base_addr_reg = value } }
    else if regnum == cpu_reg_ecall_earg
    then record cpu { ecall_regs = record (cpu.ecall_regs) { eargs = value } }
    else cpu

unfoldable pub write_reg_val : Cpu → ℕ → ℕ → Cpu
unfolding write_special_reg
write_reg_val cpu regnum value =
    if ltb regnum 15
    then write_special_reg (record cpu { gen_regs = set cpu.gen_regs regnum value }) regnum value
    else write_special_reg cpu regnum value
