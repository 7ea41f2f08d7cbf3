-- ===== src/Cpu/Branch.antt =====
-- src/cpu_execute.c and src/cpu_update_pc.c together: what a conditional jump tests after SUB.
use wolf_cpuemulator.Common.{ℕ, ◌*◌, ◌^◌, ◌<◌, ◌≡◌, arith, Bool, true, false}
use wolf_cpuemulator.Common.{flag, ◌==◌, ◌!=◌, ltb, leb, not32, sub32, ◌&&◌, not, is_set}
use wolf_cpuemulator.Common.Bits.{zero-bit_and}
use wolf_cpuemulator.Common.Int.{◌-ℤ◌, signed32, ltb_ℤ}
use wolf_cpuemulator.Alu.{alu_add_op, get_scr_cf_flag}
use wolf_cpuemulator.Alu.Add.{alu_add_op-not32, out_of_range}
use wolf_cpuemulator.Cpu.State.{Cpu, TempData}
use wolf_cpuemulator.Cpu.Isa.{
  icode_alu, alu_fun_code_sub, jmp_excond_eq, jmp_excond_ne, jmp_excond_g,
}
use wolf_cpuemulator.Cpu.Isa.{jmp_excond_s, jmp_excond_a, jmp_excond_b}
use wolf_cpuemulator.Cpu.Execute.{execute, exec_alu, alu_operate}
use wolf_cpuemulator.Cpu.UpdatePc.{jump_condition}

-- The pipeline holds a SUB without carry; `store` says whether it writes its result back.
pub record IsSub (t : TempData) (store : Bool) : Type 0 where
  pub running : t.noexception ≡ 1
  pub is_alu : t.icode ≡ icode_alu
  pub is_sub : t.ex_func ≡ alu_fun_code_sub
  pub plain : t.ex_flag ≡ 4 * flag store
  pub word_a : t.val_a < 2 ^ 32
  pub word_c : t.val_c < 2 ^ 32

sub-scr :
    (cpu : Cpu) (store : Bool)
    → IsSub cpu.temp_data_reg store
    → (execute cpu).spe_regs.scr
      ≡ (alu_add_op cpu.temp_data_reg.val_a (not32 cpu.temp_data_reg.val_c) 1).scr
unfolding execute exec_alu alu_operate
sub-scr cpu true h =
    rw (h.running, h.is_alu, h.is_sub, h.plain, zero-bit_and (get_scr_cf_flag cpu.spe_regs.scr))
sub-scr cpu false h =
    rw (h.running, h.is_alu, h.is_sub, h.plain, zero-bit_and (get_scr_cf_flag cpu.spe_regs.scr))

-- What SF and OF together say of a difference.
signed_less :
    (a b : ℕ)
    → a < 2 ^ 32
    → b < 2 ^ 32
    → (flag (leb (2 ^ 31) (sub32 a b)) != flag (out_of_range (signed32 a -ℤ signed32 b)))
      ≡ ltb_ℤ (signed32 a) (signed32 b)
unfolding out_of_range ◌-ℤ◌
signed_less a b ha hb = ground arith

signed_greater :
    (a b : ℕ)
    → a < 2 ^ 32
    → b < 2 ^ 32
    → (flag (leb (2 ^ 31) (sub32 a b)) == flag (out_of_range (signed32 a -ℤ signed32 b))
        && not (is_set (flag (a == b))))
      ≡ ltb_ℤ (signed32 b) (signed32 a)
unfolding out_of_range ◌-ℤ◌
signed_greater a b ha hb = ground arith

-- After a SUB of the word `b` from the word `a` without carry, the conditions EQ and NE test whether the operands are
-- equal, and G and S compare them as signed 32-bit integers, also where the difference overflows.
pub jump-sub_signed :
    (cpu : Cpu) (store : Bool)
    → IsSub cpu.temp_data_reg store
    → let a = cpu.temp_data_reg.val_a in
      let b = cpu.temp_data_reg.val_c in
      let scr = (execute cpu).spe_regs.scr in
      (jump_condition jmp_excond_eq scr ≡ flag (a == b))
      × (jump_condition jmp_excond_ne scr ≡ flag (a != b))
      × (jump_condition jmp_excond_g scr ≡ flag (ltb_ℤ (signed32 b) (signed32 a)))
      × (jump_condition jmp_excond_s scr ≡ flag (ltb_ℤ (signed32 a) (signed32 b)))
unfolding jump_condition
jump-sub_signed cpu store h =
    let a = cpu.temp_data_reg.val_a in
    let b = cpu.temp_data_reg.val_c in
    let flags = (alu_add_op-not32 a b h.word_a h.word_c).1 in
    rw (sub-scr cpu store h) (
      flags.is_zero,
      rw flags.is_zero (ground arith),
      rw (flags.is_zero, flags.sign, flags.overflow, signed_greater a b h.word_a h.word_c),
      rw (flags.sign, flags.overflow, signed_less a b h.word_a h.word_c),
    )

-- After a SUB of the word `b` from the word `a` without carry, the condition A ("above") holds exactly when `a` is
-- below `b` as an unsigned number, and B ("below") exactly when it is not: CF is set when nothing
-- was borrowed, and the conditions read it as a borrow.
pub jump-sub_unsigned :
    (cpu : Cpu) (store : Bool)
    → IsSub cpu.temp_data_reg store
    → let a = cpu.temp_data_reg.val_a in
      let b = cpu.temp_data_reg.val_c in
      let scr = (execute cpu).spe_regs.scr in
      (jump_condition jmp_excond_a scr ≡ flag (ltb a b))
      × (jump_condition jmp_excond_b scr ≡ flag (leb b a))
unfolding jump_condition
jump-sub_unsigned cpu store h =
    let a = cpu.temp_data_reg.val_a in
    let b = cpu.temp_data_reg.val_c in
    let flags = (alu_add_op-not32 a b h.word_a h.word_c).1 in
    rw (sub-scr cpu store h) (rw (flags.is_zero, flags.carry) (ground arith), rw flags.carry)
