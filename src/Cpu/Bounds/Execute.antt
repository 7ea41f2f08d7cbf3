-- ===== src/Cpu/Bounds/Execute.antt =====
-- What the stages behind `decode` leave alone, and that `writeback` has what it indexes.
use wolf_cpuemulator.Common.{ℕ, ◌<◌, ◌^◌, ◌≡◌, ◌≢◌, refl, arith, ◌⊎◌, inl, inr, ◌∙◌, ◌/◌}
use wolf_cpuemulator.Common.{none, length}
use wolf_cpuemulator.Common.{get_elem?-some}
use wolf_cpuemulator.Cpu.State.{Cpu}
use wolf_cpuemulator.Cpu.Trap.{ecall}
use wolf_cpuemulator.Cpu.Execute.{
  execute, exec_mov, exec_alu, exec_mlmr, exec_jmp, exec_ret, exec_ocall, exec_push, exec_pop,
  exec_zwc, alu_operate,
}
use wolf_cpuemulator.Cpu.Writeback.{writeback, merge_dest_reg, store_gen_reg, wb_pop}
use wolf_cpuemulator.Cpu.Bounds.{in_bounds}
use wolf_cpuemulator.Cpu.Bounds.Pipeline.{AreInBounds}

-- A stage that moves no register number and can only stop the instruction.
pub record Keeps (c d : Cpu) : Type 0 where
  pub same_icode : d.temp_data_reg.icode ≡ c.temp_data_reg.icode
  pub same_dest : d.temp_data_reg.dest_reg ≡ c.temp_data_reg.dest_reg
  pub same_dest2 : d.temp_data_reg.dest_reg2 ≡ c.temp_data_reg.dest_reg2
  pub same_gen : d.gen_regs ≡ c.gen_regs
  pub may_stop :
      (d.temp_data_reg.noexception ≡ c.temp_data_reg.noexception)
      ⊎ (d.temp_data_reg.noexception ≡ 0)

pub Keeps-refl : (c : Cpu) → Keeps c c
Keeps-refl c = record {
  same_icode = refl;
  same_dest = refl;
  same_dest2 = refl;
  same_gen = refl;
  may_stop = inl refl;
}

pub Keeps-trans : (c d e : Cpu) → Keeps c d → Keeps d e → Keeps c e
Keeps-trans c d e h k = ground arith

exec_mov-Keeps : (c : Cpu) → Keeps c (exec_mov c)
unfolding exec_mov ecall
exec_mov-Keeps c = ground arith

alu_operate-Keeps : (c : Cpu) (code carry : ℕ) → Keeps c (alu_operate c code carry).0
unfolding alu_operate ecall
alu_operate-Keeps c code carry = ground arith

exec_alu-Keeps : (c : Cpu) → Keeps c (exec_alu c)
unfolding exec_alu
exec_alu-Keeps c =
    let k = alu_operate-Keeps c _ _ in
    record {
      same_icode = k.same_icode;
      same_dest = k.same_dest;
      same_dest2 = k.same_dest2;
      same_gen = k.same_gen;
      may_stop = k.may_stop;
    }

exec_ret-Keeps : (c : Cpu) → Keeps c (exec_ret c)
unfolding exec_ret
exec_ret-Keeps c = ground arith

-- `execute` keeps the instruction code, the destination registers and the general registers, and at
-- most stops the instruction.
pub execute-Keeps : (c : Cpu) → Keeps c (execute c)
unfolding execute exec_mlmr exec_jmp exec_ocall exec_push exec_pop exec_zwc
execute-Keeps c = ground (arith, exec_mov-Keeps c, exec_alu-Keeps c, exec_ret-Keeps c, Keeps-refl c)

pub Keeps-AreInBounds :
    (c d : Cpu) → Keeps c d → AreInBounds c.temp_data_reg → AreInBounds d.temp_data_reg
Keeps-AreInBounds c d k (inl e) = elim k.may_stop [ inl m ↦ inl (m ∙ e) | inr m ↦ inl m ]
Keeps-AreInBounds c d k (inr e) = inr (rw (k.same_icode, k.same_dest, k.same_dest2) e)

merge_dest_reg-ne-none :
    (c : Cpu) (code : ℕ)
    → length c.gen_regs ≡ 15
    → c.temp_data_reg.dest_reg < 15
    → merge_dest_reg c code ≢ none
unfolding merge_dest_reg
merge_dest_reg-ne-none c code n h =
    let (v, e) = get_elem?-some c.gen_regs c.temp_data_reg.dest_reg (omega arith) in
    rw (e, merge_dest_reg) (ground arith)

store_gen_reg-ne-none : (c : Cpu) (i v : ℕ) → i < 15 → store_gen_reg c i v ≢ none
unfolding store_gen_reg
store_gen_reg-ne-none c i v h = ground arith

wb_pop-ne-none :
    (c : Cpu) → c.temp_data_reg.dest_reg < 15 → c.temp_data_reg.dest_reg2 < 15 → wb_pop c ≢ none
unfolding wb_pop store_gen_reg
wb_pop-ne-none c h k = ground arith

pub writeback-ne-none :
    (c : Cpu) → length c.gen_regs ≡ 15 → AreInBounds c.temp_data_reg → writeback c ≢ none
unfolding writeback in_bounds
writeback-ne-none c n h =
    let t = c.temp_data_reg in
    ground (
      arith,
      merge_dest_reg-ne-none c 0,
      merge_dest_reg-ne-none c (t.ex_flag / 2 ^ 3),
      store_gen_reg-ne-none c t.dest_reg t.val_b,
      wb_pop-ne-none c,
    )
