-- ===== src/Cpu/UpdatePc.antt =====
-- src/cpu_update_pc.c: the condition of a jump, and the next program counter.
pub mod Laws
use wolf_cpuemulator.Common.{ℕ, Bool, ◌==◌, ◌!=◌, ◌||◌, ◌&&◌, not, flag, is_set, if◌then◌else◌}
use wolf_cpuemulator.Common.{◌|||◌}
use wolf_cpuemulator.Logic.{through32}
use wolf_cpuemulator.Alu.{get_scr_of_flag, get_scr_sf_flag, get_scr_zf_flag, get_scr_cf_flag}
use wolf_cpuemulator.Cpu.State.{Cpu}
use wolf_cpuemulator.Cpu.Isa.{icode_ocall, icode_ret, icode_jmp, jmp_excond_jmp, jmp_excond_eq}
use wolf_cpuemulator.Cpu.Isa.{jmp_excond_g, jmp_excond_s, jmp_excond_a, jmp_excond_b}
use wolf_cpuemulator.Cpu.Isa.{jmp_excond_ne}

-- The `switch` on ExCond: `val1`.
unfoldable pub jump_condition : ℕ → ℕ → ℕ
jump_condition ex_cond scr =
    if ex_cond == jmp_excond_jmp
    then 1
    else if ex_cond == jmp_excond_eq
    then get_scr_zf_flag scr
    else if ex_cond == jmp_excond_g
    then flag (get_scr_sf_flag scr == get_scr_of_flag scr && not (is_set (get_scr_zf_flag scr)))
    else if ex_cond == jmp_excond_s
    then flag (get_scr_sf_flag scr != get_scr_of_flag scr)
    else if ex_cond == jmp_excond_a
    then flag (not (is_set (get_scr_cf_flag scr)) && not (is_set (get_scr_zf_flag scr)))
    else if ex_cond == jmp_excond_b
    then get_scr_cf_flag scr
    else if ex_cond == jmp_excond_ne
    then flag (not (is_set (get_scr_zf_flag scr)))
    else 0

unfoldable pub update_pc : Cpu → Cpu
update_pc cpu =
    let t = cpu.temp_data_reg in
    let is_jmp = t.icode == icode_jmp in
    let cond = t.icode == icode_ocall || t.icode == icode_ret in
    let val1 = is_set (jump_condition t.ex_cond cpu.spe_regs.scr) in
    let valc =
      through32 (flag (is_jmp && val1)) t.val_c ||| through32 (flag (is_jmp && not val1)) t.val_p in
    let updated_pc =
      valc
      ||| through32 (flag cond) t.val_c
      ||| through32 (flag (not cond && not is_jmp)) t.val_p in
    if t.noexception == 0 then cpu else record cpu { pc = updated_pc }
