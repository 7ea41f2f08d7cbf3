-- ===== src/Cpu/Registers/Laws.antt =====
-- Reading a register back after writing it.
use wolf_cpuemulator.Common.{ℕ, ◌<◌, ◌≡◌, ◌≢◌, arith, ◌==◌, ◌||◌, ltb}
use wolf_cpuemulator.Common.{if◌then◌else◌, length, get_or-set_self, get_or-set_ne, ◌&&&◌}
use wolf_cpuemulator.Cpu.State.{Cpu}
use wolf_cpuemulator.Cpu.Registers.{get_reg_val, write_reg_val, write_special_reg}
use wolf_cpuemulator.Cpu.Isa.{
  cpu_reg_spe_bcr, cpu_reg_spe_scr, cpu_reg_spe_pgbase, cpu_reg_ecall_earg,
}

-- With 15 general registers, what `getRegVal` gives after `write_reg_val` of the same number: a general register, PGBASE and
-- EARG hold the value, BCR and SCR its lowest byte. Every other number, the two handler bases
-- ECBASE and ICBASE among them, reads as it did before the write.
pub get_reg_val-write_reg_val :
    (c : Cpu) (r v : ℕ)
    → length c.gen_regs ≡ 15
    → get_reg_val (write_reg_val c r v) r ≡ (
        if ltb r 15 || (r == cpu_reg_spe_pgbase || r == cpu_reg_ecall_earg)
        then v
        else if r == cpu_reg_spe_bcr || r == cpu_reg_spe_scr
        then v &&& 0xff
        else get_reg_val c r)
unfolding get_reg_val write_reg_val write_special_reg
get_reg_val-write_reg_val c r v n = ground (arith, get_or-set_self c.gen_regs r v 0)

-- A write leaves every other general register, and the program counter, as they were.
write_reg_val-other :
    (c : Cpu) (r s v : ℕ)
    → s < 15
    → r ≢ s
    → (get_reg_val (write_reg_val c r v) s ≡ get_reg_val c s) × ((write_reg_val c r v).pc ≡ c.pc)
unfolding get_reg_val write_reg_val write_special_reg
write_reg_val-other c r s v h ne = ground (arith, get_or-set_ne c.gen_regs r s v 0 ne)
