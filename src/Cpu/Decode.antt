-- ===== src/Cpu/Decode.antt =====
-- src/cpu_decode.c: the registers that an instruction reads and will write.
use wolf_cpuemulator.Common.{ℕ, ◌==◌, ◌||◌, ◌&&◌, not, flag, is_set, if◌then◌else◌, wrap}
use wolf_cpuemulator.Common.{◌&&&◌, ◌|||◌, ◌<<◌, ◌>>◌}
use wolf_cpuemulator.Logic.{through8, through32}
use wolf_cpuemulator.Cpu.State.{Cpu}
use wolf_cpuemulator.Cpu.Registers.{get_reg_val}
use wolf_cpuemulator.Cpu.Trap.{machine_problem, stop}
use wolf_cpuemulator.Cpu.Isa.{icode_mov, icode_jmp, icode_ocall, icode_alu, icode_push, icode_pop}
use wolf_cpuemulator.Cpu.Isa.{cpu_reg_pc, ereason_unsupported_icode}

unfoldable pub get_idata : ℕ → ℕ → ℕ → ℕ
get_idata icode idata excond =
    let code_valid = icode == icode_mov || icode == icode_jmp || icode == icode_ocall in
    let idata1 = through32 (flag code_valid) ((idata &&& 0xff) << 8 ||| idata >> 8) in
    let code_valid2 = icode == icode_alu in
    let idata2 = through32 (flag code_valid2) ((idata &&& 0xff) << 4 ||| idata >> 8) in
    through32 (flag code_valid) idata1
    ||| through32 (flag code_valid2) idata2
    ||| through32 (flag (not code_valid && not code_valid2)) idata

unfoldable pub get_dest_reg : ℕ → ℕ → ℕ → ℕ
get_dest_reg icode reg1 reg2 =
    let cond = icode == icode_ocall || icode == icode_push in
    let cond2 = icode == icode_jmp in
    through8 (flag cond) reg2
    ||| through8 (flag cond2) 0
    ||| through8 (flag (not cond && not cond2)) reg1

-- `decode` where `destReg` is not the program counter.
unfoldable pub decode_registers : Cpu → ℕ → Cpu
decode_registers cpu dest_reg =
    let t = cpu.temp_data_reg in
    let dest_reg2 = through8 (flag (t.icode == icode_pop)) t.reg2 in
    record cpu {
      temp_data_reg = record (cpu.temp_data_reg) {
        dest_reg = wrap 5 dest_reg;
        dest_reg2 = wrap 5 dest_reg2;
        val_a = get_reg_val cpu t.reg1;
        val_b = get_reg_val cpu t.reg2;
        val_c = get_idata t.icode t.val_c t.ex_cond;
      };
    }

unfoldable pub decode : Cpu → Cpu
decode cpu =
    let t = cpu.temp_data_reg in
    let dest_reg = get_dest_reg t.icode t.reg1 t.reg2 in
    if not (is_set t.noexception)
    then cpu
    else if dest_reg == cpu_reg_pc
    then stop (machine_problem cpu ereason_unsupported_icode t.instruction)
    else decode_registers cpu dest_reg
