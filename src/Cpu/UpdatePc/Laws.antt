-- ===== src/Cpu/UpdatePc/Laws.antt =====
-- The next program counter by instruction.
use wolf_cpuemulator.Common.{ℕ, ◌^◌, ◌<◌, ◌≡◌, arith, Bool, true, false, ◌==◌, ◌||◌, ◌&&◌, not}
use wolf_cpuemulator.Common.{if◌then◌else◌, is_set, flag, ◌|||◌}
use wolf_cpuemulator.Common.Bits.{zero-bit_or, bit_or-zero}
use wolf_cpuemulator.Logic.{through32}
use wolf_cpuemulator.Logic.Select.{through32_zero, through32_one}
use wolf_cpuemulator.Cpu.State.{Cpu}
use wolf_cpuemulator.Cpu.Isa.{icode_jmp, icode_ocall, icode_ret}
use wolf_cpuemulator.Cpu.UpdatePc.{update_pc, jump_condition}

-- The masks of `update_PC` where a call is no jump.
choose_target :
    (is_jmp holds cond : Bool) (vc vp : ℕ)
    → (is_jmp && cond) ≡ false
    → vc < 2 ^ 32
    → vp < 2 ^ 32
    → (through32 (flag (is_jmp && holds)) vc
        ||| through32 (flag (is_jmp && not holds)) vp
        ||| through32 (flag cond) vc
        ||| through32 (flag (not cond && not is_jmp)) vp)
      ≡ (if cond || (is_jmp && holds) then vc else vp)
choose_target true true true vc vp e hc hp = cc
choose_target true false true vc vp e hc hp = cc
choose_target true true false vc vp e hc hp =
    simp (through32_zero, through32_one, bit_or-zero) (omega arith)
choose_target true false false vc vp e hc hp =
    simp (through32_zero, through32_one, bit_or-zero, zero-bit_or) (omega arith)
choose_target false h true vc vp e hc hp =
    simp (through32_zero, through32_one, bit_or-zero, zero-bit_or) (omega arith)
choose_target false h false vc vp e hc hp =
    simp (through32_zero, through32_one, zero-bit_or) (omega arith)

jump_is_no_call :
    (icode : ℕ) → (icode == icode_jmp && (icode == icode_ocall || icode == icode_ret)) ≡ false
jump_is_no_call icode = ground arith

-- For 32-bit valC and valP: a stopped instruction keeps the program counter, where its handler was put. Else a call and a
-- return go to valC, a jump goes to valC if its condition holds, and everything else to valP.
pub update_pc_lem :
    (c : Cpu)
    → c.temp_data_reg.val_c < 2 ^ 32
    → c.temp_data_reg.val_p < 2 ^ 32
    → let t = c.temp_data_reg in
      (update_pc c).pc ≡ (
        if t.noexception == 0
        then c.pc
        else if (t.icode == icode_ocall || t.icode == icode_ret)
            || (t.icode == icode_jmp && is_set (jump_condition t.ex_cond c.spe_regs.scr))
        then t.val_c
        else t.val_p)
unfolding update_pc
update_pc_lem c hc hp =
    let t = c.temp_data_reg in
    rw
      (choose_target (t.icode == icode_jmp) (is_set (jump_condition t.ex_cond c.spe_regs.scr))
        (t.icode == icode_ocall || t.icode == icode_ret) t.val_c t.val_p (jump_is_no_call t.icode)
        hc hp)
      (ground arith)
