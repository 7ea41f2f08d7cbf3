-- ===== src/Cpu/Execute.antt =====
-- src/cpu_execute.c: one function for each case of the `switch`.
use wolf_cpuemulator.Common.{ℕ, ◌==◌, ◌||◌, ◌&&◌, not, flag, is_set, if◌then◌else◌, u8}
use wolf_cpuemulator.Common.{u32, bit_xor, not32, sub32, add32, sext16, ◌&&&◌, ◌|||◌, ◌<<◌, ◌>>◌}
use wolf_cpuemulator.Logic.{through32, mux32}
use wolf_cpuemulator.Endian.{operate_2_bits_high}
use wolf_cpuemulator.Alu.{AluResult, get_scr_cf_flag, alu_add_op, alu_and_op, alu_or_op}
use wolf_cpuemulator.Alu.{alu_xor_op, alu_neg_op, alu_not_op, alu_ml_op, alu_mr_op}
use wolf_cpuemulator.Cpu.State.{Cpu}
use wolf_cpuemulator.Cpu.Trap.{machine_problem, stop}
use wolf_cpuemulator.Cpu.Isa.{icode_mov, icode_alu, icode_mlmr, icode_push, icode_pop}
use wolf_cpuemulator.Cpu.Isa.{icode_pushf, icode_popf, icode_zwc, icode_jmp, icode_ocall}
use wolf_cpuemulator.Cpu.Isa.{icode_ret, icode_ret_exfunc, alu_fun_code_add, alu_fun_code_sub}
use wolf_cpuemulator.Cpu.Isa.{alu_fun_code_and, alu_fun_code_or, alu_fun_code_xor}
use wolf_cpuemulator.Cpu.Isa.{alu_fun_code_neg, alu_fun_code_not, is_itype, is_rtype}
use wolf_cpuemulator.Cpu.Isa.{ereason_unsupported_icode, ereason_unsupported_alu_func}

-- ICODE_EXFLAG_MOV_MEM1 and ICODE_EXFLAG_MOV_MEM2
abbrev pub exflag_mov_mem1 : ℕ → ℕ
exflag_mov_mem1 exflag = exflag >> 1 &&& 1

abbrev pub exflag_mov_mem2 : ℕ → ℕ
exflag_mov_mem2 exflag = exflag &&& 1

abbrev set_val_b : Cpu → ℕ → Cpu
set_val_b cpu v = record cpu { temp_data_reg = record (cpu.temp_data_reg) { val_b = v } }

abbrev pub set_val_c : Cpu → ℕ → Cpu
set_val_c cpu v = record cpu { temp_data_reg = record (cpu.temp_data_reg) { val_c = v } }

abbrev set_scr : Cpu → ℕ → Cpu
set_scr cpu v = record cpu { spe_regs = record (cpu.spe_regs) { scr = v } }

unfoldable pub zwc_16 : ℕ → ℕ
zwc_16 v =
    through32 ((v &&& 0x00000080) >> 7) (v ||| 0xffffff00)
    ||| through32 (flag (not (is_set ((v &&& 0x00000080) >> 7)))) (v &&& 0x000000ff)

unfoldable pub zwc_32 : ℕ → ℕ
zwc_32 v =
    through32 ((v &&& 0x00008000) >> 15) (v ||| 0xffff0000)
    ||| through32 (flag (not (is_set ((v &&& 0x00008000) >> 15)))) (v &&& 0x0000ffff)

unfoldable pub exec_mov : Cpu → Cpu
exec_mov cpu =
    let t = cpu.temp_data_reg in
    let i1_mem = exflag_mov_mem1 t.ex_flag in
    let i2_mem = exflag_mov_mem2 t.ex_flag in
    let bit = t.ex_flag >> 3 in
    if is_set i1_mem && is_set i2_mem && is_set (is_rtype t.irtype)
    then machine_problem cpu ereason_unsupported_icode t.instruction
    else let f_val =
        through32 i1_mem t.val_a
        ||| through32 (flag (is_set i2_mem || (not (is_set i1_mem) && not (is_set i2_mem))))
            t.val_b in
      let val_c = mux32 (flag (bit == operate_2_bits_high)) t.val_c (u32 (t.val_c << 16)) in
      set_val_c cpu (through32 (is_rtype t.irtype) f_val ||| through32 (is_itype t.irtype) val_c)

abbrev alu_exflag_exalu_mask : ℕ
alu_exflag_exalu_mask = 0

abbrev alu_exflag_sgn_mask : ℕ
alu_exflag_sgn_mask = 1

abbrev alu_exflag_opr_mask : ℕ
alu_exflag_opr_mask = 2

abbrev alu_exfunc_bits : ℕ
alu_exfunc_bits = 4

-- The `switch` on the function code, with what the default case leaves in `res1`.
unfoldable pub alu_operate : Cpu → ℕ → ℕ → Cpu × ℕ
alu_operate cpu code carry =
    let t = cpu.temp_data_reg in
    let done : AluResult → Cpu × ℕ = λ r. (set_scr cpu r.scr, r.res) in
    if code == alu_fun_code_add
    then done (alu_add_op t.val_a t.val_c carry)
    else if code == alu_fun_code_sub
    then done (alu_add_op t.val_a (not32 t.val_c) (bit_xor carry 1))
    else if code == alu_fun_code_and
    then done (alu_and_op t.val_a t.val_c)
    else if code == alu_fun_code_or
    then done (alu_or_op t.val_a t.val_c)
    else if code == alu_fun_code_xor
    then done (alu_xor_op t.val_a t.val_c)
    else if code == alu_fun_code_neg
    then done (alu_neg_op t.val_a 0)
    else if code == alu_fun_code_not
    then done (alu_not_op t.val_a 0)
    else (stop (machine_problem cpu ereason_unsupported_alu_func t.instruction), 0)

unfoldable pub exec_alu : Cpu → Cpu
exec_alu cpu =
    let t = cpu.temp_data_reg in
    let sgn = t.ex_flag >> alu_exflag_sgn_mask &&& 1 in
    let ex_code = t.ex_flag >> alu_exflag_exalu_mask &&& 1 in
    let final_ex_func = u8 (ex_code << alu_exfunc_bits ||| t.ex_func) in
    let need_op = t.ex_flag >> alu_exflag_opr_mask &&& 1 in
    let cf = get_scr_cf_flag cpu.spe_regs.scr in
    let (cpu', res1) = alu_operate cpu final_ex_func (sgn &&& cf) in
    set_val_c cpu' (mux32 need_op t.val_a res1)

unfoldable pub exec_mlmr : Cpu → Cpu
exec_mlmr cpu =
    let t = cpu.temp_data_reg in
    let ml_mr = t.ex_flag &&& 1 in
    let is_alu = t.ex_flag >> 1 &&& 1 in
    let r =
      if ml_mr == 0 then alu_ml_op t.val_a t.val_c is_alu else alu_mr_op t.val_a t.val_c is_alu in
    set_val_c (set_scr cpu r.scr) r.res

-- `valA + (int16_t)(valC & 0xffff)`
abbrev jump_target : ℕ → ℕ → ℕ
jump_target val_a val_c = add32 val_a (sext16 (val_c &&& 0xffff))

unfoldable pub exec_jmp : Cpu → Cpu
exec_jmp cpu = let t = cpu.temp_data_reg in set_val_c cpu (jump_target t.val_a t.val_c)

unfoldable pub exec_ret : Cpu → Cpu
exec_ret cpu =
    let t = cpu.temp_data_reg in
    if t.ex_func == icode_ret_exfunc then set_val_b cpu (add32 t.val_b 4) else cpu

unfoldable pub exec_ocall : Cpu → Cpu
exec_ocall cpu =
    let t = cpu.temp_data_reg in
    set_val_c (set_val_b cpu (sub32 t.val_b 4)) (jump_target t.val_a t.val_c)

unfoldable pub exec_push : Cpu → Cpu
exec_push cpu = let t = cpu.temp_data_reg in set_val_b (set_val_c cpu t.val_a) (sub32 t.val_b 4)

unfoldable pub exec_pop : Cpu → Cpu
exec_pop cpu = set_val_b cpu (add32 cpu.temp_data_reg.val_b 4)

unfoldable pub exec_zwc : Cpu → Cpu
exec_zwc cpu =
    let t = cpu.temp_data_reg in
    let byte = t.ex_flag &&& 1 in
    set_val_b cpu
      (through32 byte (zwc_16 t.val_a) ||| through32 (flag (not (is_set byte))) (zwc_32 t.val_a))

unfoldable pub execute : Cpu → Cpu
execute cpu =
    let icode = cpu.temp_data_reg.icode in
    if not (is_set cpu.temp_data_reg.noexception)
    then cpu
    else if icode == icode_mov
    then exec_mov cpu
    else if icode == icode_alu
    then exec_alu cpu
    else if icode == icode_mlmr
    then exec_mlmr cpu
    else if icode == icode_jmp
    then exec_jmp cpu
    else if icode == icode_ret
    then exec_ret cpu
    else if icode == icode_ocall
    then exec_ocall cpu
    else if icode == icode_pushf || icode == icode_push
    then exec_push cpu
    else if icode == icode_popf || icode == icode_pop
    then exec_pop cpu
    else if icode == icode_zwc
    then exec_zwc cpu
    else cpu
