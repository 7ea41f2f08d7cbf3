-- ===== src/Cpu/Fetch.antt =====
-- src/cpu_fetch.c: the fields that an instruction word is cut into. Each getter keeps the shape of
-- the C function, a sum of masked cases.
pub mod Registers
use wolf_cpuemulator.Common.{ℕ, ◌+◌, Bool, ◌==◌, ◌||◌, ltb, not, flag, is_set, if◌then◌else◌}
use wolf_cpuemulator.Common.{u8, u32, wrap, ◌&&&◌, ◌|||◌, ◌>>◌}
use wolf_cpuemulator.Logic.{through8, through32}
use wolf_cpuemulator.Endian.{Bytes4, get_int_from_4_bytes_b}
use wolf_cpuemulator.Cpu.State.{Cpu}
use wolf_cpuemulator.Cpu.Trap.{machine_problem, stop, mmu_convert_to_ereason}
use wolf_cpuemulator.Cpu.Isa.{icode_mov, icode_alu, icode_mlmr, icode_push, icode_pop}
use wolf_cpuemulator.Cpu.Isa.{icode_pushf, icode_popf, icode_zwc, icode_jmp, icode_ocall}
use wolf_cpuemulator.Cpu.Isa.{icode_ecall, icode_ret, icode_rere, icode_rbcr, icode_lbcr}
use wolf_cpuemulator.Cpu.Isa.{icode_lpgr, icode_libr, icode_lebr, icode_rearg, cpu_reg_pc}
use wolf_cpuemulator.Cpu.Isa.{cpu_reg_rsp, cpu_reg_spe_bcr, cpu_reg_spe_scr, cpu_reg_spe_pgbase}
use wolf_cpuemulator.Cpu.Isa.{cpu_reg_ecall_ecbase, cpu_reg_ecall_icbase, cpu_reg_ecall_reason}
use wolf_cpuemulator.Cpu.Isa.{cpu_reg_irq_reason, cpu_reg_ecall_earg, is_itype, is_rtype}
use wolf_cpuemulator.Cpu.Isa.{is_icode_invalid, ereason_unsupported_icode}
use wolf_cpuemulator.Cpu.Isa.{ereason_unrecognized_reg}

unfoldable pub reg_valid : ℕ → Bool
reg_valid reg1 = not (ltb cpu_reg_irq_reason reg1)

unfoldable pub get_ex_cond : ℕ → ℕ → ℕ → ℕ
get_ex_cond type icode data' =
    let val = through8 (flag (icode == icode_jmp)) (data' >> 16 &&& 0b11111) in
    through8 (is_itype type) val

unfoldable pub get_l_register_b : ℕ → ℕ → ℕ → ℕ
get_l_register_b type icode data' =
    let icode_d = flag (icode == icode_ocall) in
    let icode_b = flag (icode == icode_ecall) in
    let final_itype_val = through8 icode_b cpu_reg_ecall_ecbase ||| through8 icode_d cpu_reg_rsp in
    let icode_a = flag (
      icode == icode_lbcr
      || icode == icode_lpgr
      || icode == icode_lebr
      || icode == icode_libr
      || icode == icode_rearg) in
    let reg_a = data' >> 21 &&& 0xf in
    let icode_c = flag (icode == icode_ret || icode == icode_push || icode == icode_pop) in
    let icode_h = flag (icode == icode_rere) in
    let icode_j = flag (icode == icode_ecall) in
    let icode_k = flag (icode == icode_mov || icode == icode_alu) in
    let reg_b11 = data' >> 17 &&& 0xf in
    let final_rtype_val =
      through8 icode_a reg_a
      ||| through8 icode_c cpu_reg_rsp
      ||| through8 icode_h cpu_reg_ecall_reason
      ||| through8 icode_j cpu_reg_pc
      ||| through8 icode_k reg_b11 in
    through8 (is_itype type) final_itype_val ||| through8 (is_rtype type) final_rtype_val

-- `cond == ICODE_MLMR` compares the truth value before it; `val6` is computed and not used.
unfoldable pub get_ex_flag : ℕ → ℕ → ℕ → ℕ
get_ex_flag type icode data' =
    let cond1 = flag (icode == icode_mov) in
    let val1 = through8 cond1 (data' >> 16 &&& 0b11111) in
    let cond2 = flag (icode == icode_alu || cond1 == icode_mlmr) in
    let val2 = through8 cond2 (data' >> 12 &&& 0b11111) in
    let cond3 = flag (icode == icode_ocall) in
    let val3 = through8 cond3 (data' >> 16 &&& 0b11111) in
    let final_itype_val = val1 ||| val2 ||| val3 in
    let val4 = through8 (flag (icode == icode_mov)) (data' >> 12 &&& 0b11111) in
    let val5 = through8 (flag (icode == icode_alu)) (data' >> 8 &&& 0b11111) in
    let final_rtype_val = val4 ||| val5 in
    through8 (is_itype type) final_itype_val ||| through8 (is_rtype type) final_rtype_val

-- EXFLAG_R1_ON and EXCOND_R1_ON
abbrev exflag_r1_on : ℕ → ℕ
exflag_r1_on exflag = exflag >> 3

abbrev excond_r1_on : ℕ → ℕ
excond_r1_on excond = excond >> 4

unfoldable pub get_l_register_a : ℕ → ℕ → ℕ → ℕ → ℕ
get_l_register_a icode data' ex_flag ex_cond =
    let icode_a = flag (
      icode == icode_mov
      || icode == icode_alu
      || icode == icode_mlmr
      || icode == icode_rbcr
      || icode == icode_rere
      || icode == icode_zwc
      || icode == icode_push
      || icode == icode_pop) in
    let reg_a = data' >> 21 &&& 0xf in
    let icode_b = flag (icode == icode_ret) in
    let icode_c = flag (icode == icode_ocall) in
    let r1_on = exflag_r1_on ex_flag in
    let reg_c = through8 r1_on reg_a ||| through8 (flag (not (is_set r1_on))) cpu_reg_pc in
    let icode_d = flag (icode == icode_jmp) in
    let r1_on' = excond_r1_on ex_cond in
    let reg_d = through8 r1_on' reg_a ||| through8 (flag (not (is_set r1_on'))) cpu_reg_pc in
    let icode_e = flag (icode == icode_lbcr) in
    let icode_f = flag (icode == icode_lpgr) in
    let icode_g = flag (icode == icode_lebr) in
    let icode_h = flag (icode == icode_libr) in
    let icode_i = flag (icode == icode_pushf || icode == icode_popf) in
    let icode_j = flag (icode == icode_rearg) in
    through8 icode_a reg_a
    ||| through8 icode_b cpu_reg_rsp
    ||| through8 icode_c reg_c
    ||| through8 icode_d reg_d
    ||| through8 icode_e cpu_reg_spe_bcr
    ||| through8 icode_f cpu_reg_spe_pgbase
    ||| through8 icode_g cpu_reg_ecall_ecbase
    ||| through8 icode_h cpu_reg_ecall_icbase
    ||| through8 icode_i cpu_reg_spe_scr
    ||| through8 icode_j cpu_reg_ecall_earg

unfoldable pub get_i_data : ℕ → ℕ → ℕ → ℕ
get_i_data type icode data' =
    let cond1 = flag (icode == icode_mov || icode == icode_jmp || icode == icode_ocall) in
    let icmd1_4_7_val = through32 cond1 (data' &&& 0xffff) in
    let icmd2_val = through32 (flag (icode == icode_alu)) (data' &&& 0x0fff) in
    let icmd3_val = through32 (flag (icode == icode_mlmr)) (data' &&& 0x1f) in
    let icmd6_val = through32 (flag (icode == icode_ecall)) (data' &&& 0x3f) in
    let final_itype_res = icmd6_val ||| icmd2_val ||| icmd3_val ||| icmd1_4_7_val in
    through32 (is_itype type) final_itype_res

unfoldable pub get_ex_func : ℕ → ℕ → ℕ → ℕ
get_ex_func type icode data' =
    let cond = flag (icode == icode_alu || icode == icode_mlmr) in
    let final_itype_val = through8 cond (data' >> 17 &&& 0b1111) in
    let val_b1 = through8 (flag (icode == icode_alu)) (data' >> 13) in
    let val2 = through8 (flag (icode == icode_ret)) (data' >> 21 &&& 0b1111) in
    through8 (is_itype type) final_itype_val ||| through8 (is_rtype type) (val_b1 ||| val2)

-- `MMU_STATUS`: the answer of a memory access
pub record MmuStatus : Type 0 where
  pub stat : ℕ
  pub bytes : Bytes4

-- The fields of the pipeline's record that a fetched word sets, with the widths of its bit-fields.
unfoldable pub split_instruction : Cpu → ℕ → Cpu
split_instruction cpu fetch =
    let type = fetch >> 31 in
    let icode = fetch >> 25 &&& 0b0111111 in
    let data' = fetch &&& 0x01ffffff in
    let ex_flag = get_ex_flag type icode data' in
    let ex_cond = wrap 4 (get_ex_cond type icode data') in
    record cpu {
      temp_data_reg = record (cpu.temp_data_reg) {
        ex_func = wrap 4 (get_ex_func type icode data');
        ex_cond = ex_cond;
        ex_flag = wrap 5 ex_flag;
        irtype = wrap 1 type;
        icode = wrap 6 icode;
        reg1 = wrap 5 (get_l_register_a icode data' ex_flag ex_cond);
        reg2 = wrap 5 (get_l_register_b type icode data');
        val_c = get_i_data type icode data';
        val_p = u32 (cpu.pc + 4);
        instruction = fetch;
        noexception = 1;
      };
    }

unfoldable pub check_icode : Cpu → Cpu
check_icode cpu =
    let t = cpu.temp_data_reg in
    if is_icode_invalid t.icode t.irtype
    then stop (machine_problem cpu ereason_unsupported_icode t.instruction)
    else cpu

unfoldable pub check_registers : Cpu → Cpu
check_registers cpu =
    let t = cpu.temp_data_reg in
    if not (reg_valid t.reg1) || not (reg_valid t.reg2)
    then stop (machine_problem cpu ereason_unrecognized_reg t.instruction)
    else cpu

-- `fetch_data` behind its call of `rd_mmu`, whose answer is the second argument.
unfoldable pub fetch_data : Cpu → MmuStatus → Cpu
fetch_data cpu mmu_res =
    if is_set mmu_res.stat
    then stop
        (machine_problem cpu (mmu_convert_to_ereason mmu_res.stat) cpu.temp_data_reg.instruction)
    else check_registers
        (check_icode (split_instruction cpu (get_int_from_4_bytes_b mmu_res.bytes)))
