-- ===== src/Cpu/Trap.antt =====
-- src/controllers/ecall.c, src/cpu_access_check.c and src/cpu_ecall_process.c: entering and leaving
-- the handlers of exceptions and interrupts.
pub mod Enter
use wolf_cpuemulator.Common.{ℕ, ◌+◌, ◌*◌, ◌-◌, Bool, ◌&&◌, not, flag, is_set, if◌then◌else◌, ◌==◌}
use wolf_cpuemulator.Common.{u8, u16, u32, bit_xor, ◌&&&◌, ◌|||◌, ◌<<◌, ◌>>◌}
use wolf_cpuemulator.Cpu.State.{Cpu, TempData, is_in_kern_mode}
use wolf_cpuemulator.Cpu.Isa.{ecall_machine_problem, ereason_instruction_access_denied}
use wolf_cpuemulator.Cpu.Isa.{is_privilege_instruction, icode_ecall, icode_ret}
use wolf_cpuemulator.Cpu.Isa.{icode_eret_exfunc, icode_iret_exfunc, ereason_software_calling}

abbrev pub bcr_kern_mode_mask : ℕ
bcr_kern_mode_mask = 0

abbrev pub bcr_irq_disallow_mask : ℕ
bcr_irq_disallow_mask = 0b10000

abbrev bcr_irq_disallow_mask_bit : ℕ
bcr_irq_disallow_mask_bit = 4

abbrev kern_mode : ℕ
kern_mode = 0

abbrev ku_store_bits : ℕ
ku_store_bits = 0

abbrev irq_store_bits : ℕ
irq_store_bits = 1

abbrev pub ecall_single_item_length : ℕ
ecall_single_item_length = 16

-- GET_DATA_BIT_VALUE
abbrev pub get_data_bit_value : ℕ → ℕ → ℕ
get_data_bit_value value bit = value >> bit &&& 1

-- MMU_CONVERT_TO_EREASON, as a `uint8_t`; an `ecode` of 0 is never converted.
abbrev pub mmu_convert_to_ereason : ℕ → ℕ
mmu_convert_to_ereason ecode = u8 ((1 << 3) ||| (ecode - 1))

unfoldable pub ecall : Cpu → ℕ → ℕ → ℕ → Cpu
ecall cpu ecode reason earg =
    let base_addr = u32 (cpu.ecall_regs.mpc + u8 ecode * ecall_single_item_length) in
    let bcr = cpu.spe_regs.bcr in
    record cpu {
      pc = base_addr;
      ecall_regs = record (cpu.ecall_regs) {
        mep = cpu.pc;
        mreason = reason;
        mprevmode = u8 (
            flag (is_in_kern_mode bcr) << ku_store_bits
            ||| (bcr &&& bcr_irq_disallow_mask) << irq_store_bits);
        eargs = earg;
      };
      spe_regs = record (cpu.spe_regs) {
        bcr = u16 (bcr ||| (bcr_irq_disallow_mask ||| kern_mode << bcr_kern_mode_mask));
      };
    }

unfoldable pub eret : Cpu → Cpu
eret cpu =
    let mprevmode = cpu.ecall_regs.mprevmode in
    let restored =
      u16 (cpu.spe_regs.bcr ||| get_data_bit_value mprevmode ku_store_bits << bcr_kern_mode_mask) in
    record cpu {
      pc = u32 (cpu.ecall_regs.mpc + 4);
      ecall_regs = record (cpu.ecall_regs) { mep = 0; mreason = 0 };
      spe_regs = record (cpu.spe_regs) {
        bcr =
            restored
            &&& bit_xor 0xff
                (get_data_bit_value mprevmode irq_store_bits << bcr_irq_disallow_mask_bit);
      };
    }

unfoldable pub iret : Cpu → Cpu
iret cpu =
    let allowed = cpu.spe_regs.bcr &&& bit_xor 0xff bcr_irq_disallow_mask in
    record cpu {
      pc = cpu.irq_regs.mpc;
      ecall_regs = record (cpu.ecall_regs) { mep = 0; mreason = 0 };
      spe_regs = record (cpu.spe_regs) {
        bcr = allowed &&& cpu.irq_regs.mprevmode << bcr_kern_mode_mask;
      };
    }

-- `noexception = 0` in the pipeline's record.
abbrev pub stop : Cpu → Cpu
stop cpu = record cpu { temp_data_reg = record (cpu.temp_data_reg) { noexception = 0 } }

-- `ecaller(.., ECALL_MACHINE_PROBLEM, reason, earg)`.
abbrev pub machine_problem : Cpu → ℕ → ℕ → Cpu
machine_problem cpu reason earg = ecall cpu ecall_machine_problem reason earg

-- The C function clears `noexception` in a copy of the pipeline's record, which is then dropped.
unfoldable pub access_check : Cpu → Cpu
access_check cpu =
    let data' = cpu.temp_data_reg in
    if is_privilege_instruction data'.icode && not (is_in_kern_mode cpu.spe_regs.bcr)
    then machine_problem cpu ereason_instruction_access_denied data'.instruction
    else cpu

-- The `switch` of `ecall_proc`.
unfoldable pub ecall_dispatch : Cpu → Cpu
ecall_dispatch cpu =
    let t = cpu.temp_data_reg in
    if t.icode == icode_ecall
    then ecall cpu t.val_c ereason_software_calling 0
    else if t.icode == icode_ret
    then if t.ex_func == icode_eret_exfunc
      then eret cpu
      else if t.ex_func == icode_iret_exfunc
      then iret cpu
      else cpu
    else cpu

unfoldable pub ecall_proc : Cpu → Cpu
unfolding ecall_dispatch
ecall_proc cpu = if is_set cpu.temp_data_reg.noexception then cpu else stop (ecall_dispatch cpu)
