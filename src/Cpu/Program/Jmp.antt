-- ===== src/Cpu/Program/Jmp.antt =====
-- JMP through all stages of src/cpu.c.
use wolf_cpuemulator.Common.{
  ℕ, ◌+◌, ◌/◌, ◌<◌, ◌^◌, ◌≡◌, ◌∙◌, ap, refl, arith, Bool-cases, inl, inr, is_set, same,
  if◌then◌else◌, some, u32, add32, sext16, ◌>>◌, ◌&&&◌,
}
use wolf_cpuemulator.Common.Bits.{bit_and_mask, bit_or_fields, bit_or-zero, zero-bit_or}
use wolf_cpuemulator.Logic.Select.{through8_zero, through8_one, through32_zero, through32_one}
use wolf_cpuemulator.Cpu.State.{Cpu, TempData}
use wolf_cpuemulator.Cpu.Isa.{icode_jmp}
use wolf_cpuemulator.Cpu.Registers.{get_reg_val}
use wolf_cpuemulator.Cpu.Trap.{access_check}
use wolf_cpuemulator.Cpu.Fetch.{fetch_data}
use wolf_cpuemulator.Cpu.Decode.{decode, get_idata, get_dest_reg}
use wolf_cpuemulator.Cpu.Execute.{execute, exec_jmp}
use wolf_cpuemulator.Cpu.Port.{Mmu}
use wolf_cpuemulator.Cpu.Memory.{memory}
use wolf_cpuemulator.Cpu.Writeback.{writeback, is_special_write, is_val_b_write}
use wolf_cpuemulator.Cpu.UpdatePc.{update_pc, jump_condition}
use wolf_cpuemulator.Cpu.Cycle.{run_instruction}
use wolf_cpuemulator.Cpu.Program.{word, swap16, taken}
use wolf_cpuemulator.Alu.{get_scr_of_flag, get_scr_sf_flag, get_scr_zf_flag, get_scr_cf_flag}
use wolf_cpuemulator.Cpu.Program.Front.{answer_of, decoded, decode-word}
use wolf_cpuemulator.Cpu.Program.Cut.{jmp_rest, jmp_fields, jmp-IsCut}
use wolf_cpuemulator.Cpu.Program.Back.{run_instruction-stages, front_stages-running}

get_idata-jump : (i c : ℕ) → i < 2 ^ 16 → get_idata icode_jmp (swap16 i) c ≡ i
unfolding get_idata
get_idata-jump i c h =
    let x = swap16 i in
    let low : (x &&& 0xff) ≡ i / 256 = omega (arith, bit_and_mask 8 x) in
    simp (through32_zero, through32_one, bit_or-zero)
      (rw (low, bit_or_fields 8 (i / 256) (x >> 8) (omega arith)) (omega arith))

get_dest_reg-jmp : get_dest_reg icode_jmp 15 0 ≡ 0
unfolding get_dest_reg
get_dest_reg-jmp = simp (through8_zero, through8_one, zero-bit_or)

module _ (cpu : Cpu) (cond offset : ℕ) where
  abbrev rest : ℕ
  rest = jmp_rest cond (swap16 offset)

  abbrev in_flight : TempData
  in_flight = record (decoded cpu 0 icode_jmp rest (jmp_fields cond (swap16 offset)) 0) {
    val_a = cpu.pc;
    val_c = offset;
  }

  abbrev target : ℕ
  target = add32 cpu.pc (sext16 offset)

  abbrev executed : TempData
  executed = record in_flight { val_c = target }

  decode-jmp :
      cond < 16
      → offset < 2 ^ 16
      → decode (access_check (fetch_data cpu (answer_of (word 0 icode_jmp rest))))
        ≡ record cpu { temp_data_reg = in_flight }
  unfolding get_reg_val
  decode-jmp hc ho =
      decode-word cpu 0 icode_jmp rest (jmp_fields cond (swap16 offset)) 0
        (jmp-IsCut cond (swap16 offset) hc (omega arith)) get_dest_reg-jmp (omega arith)
      ∙ rw (get_idata-jump offset cond ho)

  execute-jmp :
      offset < 2 ^ 16
      → execute (record cpu { temp_data_reg = in_flight }) ≡ record cpu { temp_data_reg = executed }
  unfolding execute exec_jmp
  execute-jmp ho =
      let low : (offset &&& 0xffff) ≡ offset = omega (arith, bit_and_mask 16 offset) in rw low

  update_pc-jmp : update_pc (record cpu { temp_data_reg = executed }) ≡ record cpu {
    pc = if is_set (jump_condition cond cpu.spe_regs.scr) then target else u32 (cpu.pc + 4);
    temp_data_reg = executed;
  }
  unfolding update_pc
  update_pc-jmp =
      let twice : u32 (u32 (cpu.pc + 4)) ≡ u32 (cpu.pc + 4) = omega arith in
      let twice' : u32 target ≡ target = ground arith in
      elim (Bool-cases (is_set (jump_condition cond cpu.spe_regs.scr))) [
        | inl e ↦ rw e (simp (through32_zero, through32_one, bit_or-zero) (rw twice'))
        | inr e ↦ rw e (simp (through32_zero, through32_one, bit_or-zero, zero-bit_or) (rw twice))
      ]

module _ {S : Type 0} (mmu : Mmu S) (cpu : Cpu) (s s' : S) where
  pub run_instruction-jmp :
      (cond offset : ℕ)
      → mmu.rd_mmu cpu.spe_regs cpu.pc 15 1 s
        ≡ (answer_of (word 0 icode_jmp (jmp_rest cond (swap16 offset))), s')
      → cond < 16
      → offset < 2 ^ 16
      → (t : TempData) × (run_instruction mmu cpu s
          ≡ some (
            record cpu {
              pc =
                  if is_set (jump_condition cond cpu.spe_regs.scr)
                  then add32 cpu.pc (sext16 offset)
                  else u32 (cpu.pc + 4);
              temp_data_reg = t;
            },
            s',
          ))
  unfolding memory writeback is_special_write is_val_b_write
  run_instruction-jmp cond offset fetched hc ho =
      let t = executed cpu cond offset in
      let c3 : Cpu = record cpu { temp_data_reg = in_flight cpu cond offset } in
      let c4 : Cpu = record cpu { temp_data_reg = t } in
      let answer = answer_of (word 0 icode_jmp (jmp_rest cond (swap16 offset))) in
      (
        t,
        run_instruction-stages mmu cpu s s' answer c4 c4 fetched
              (front_stages-running cpu c3 c4 answer (decode-jmp cpu cond offset hc ho)
                (execute-jmp cpu cond offset ho) refl)
              refl refl
            ∙ ap (λ (c : Cpu). some (c, s')) (update_pc-jmp cpu cond offset),
      )

-- The condition that the pipeline finds is the one that is meant.
pub jump_condition-taken : (cond scr : ℕ) → is_set (jump_condition cond scr) ≡ taken cond scr
unfolding jump_condition get_scr_of_flag get_scr_sf_flag get_scr_zf_flag get_scr_cf_flag same
jump_condition-taken cond scr = ground (
  arith,
  bit_and_mask 1 (scr >> 0),
  bit_and_mask 1 (scr >> 1),
  bit_and_mask 1 (scr >> 2),
  bit_and_mask 1 (scr >> 4),
)
