-- ===== src/Cpu/Program/Back.antt =====
-- The stages behind decoding, on an instruction that changes one general register or none:
-- src/cpu_wb.c and src/cpu_update_pc.c.
use wolf_cpuemulator.Common.{
  ℕ, zero, suc, ◌<◌, ◌^◌, ◌≡◌, ◌∙◌, ap, refl, arith, true, false, ◌==◌, ltb, Option, none, some,
  List, [], ◌∷◌, get_or, get_elem?, set, length, u32,
}
use wolf_cpuemulator.Common.Partial.{◌>>=◌}
use wolf_cpuemulator.Common.Bits.{zero-bit_or}
use wolf_cpuemulator.Logic.Select.{through32_zero, through32_one}
use wolf_cpuemulator.Endian.{data32_mask_be, mov_be}
use wolf_cpuemulator.Endian.Width.{data32_mask_be-mov_be}
use wolf_cpuemulator.Cpu.State.{Cpu}
use wolf_cpuemulator.Cpu.Isa.{icode_jmp, icode_ocall, icode_ret}
use wolf_cpuemulator.Cpu.Registers.{get_reg_val, write_reg_val}
use wolf_cpuemulator.Cpu.Trap.{access_check, ecall_proc}
use wolf_cpuemulator.Cpu.Fetch.{MmuStatus, fetch_data}
use wolf_cpuemulator.Cpu.Decode.{decode}
use wolf_cpuemulator.Cpu.Execute.{execute}
use wolf_cpuemulator.Cpu.Port.{Mmu}
use wolf_cpuemulator.Cpu.Memory.{memory}
use wolf_cpuemulator.Cpu.Writeback.{writeback, merge_dest_reg}
use wolf_cpuemulator.Cpu.UpdatePc.{update_pc}
use wolf_cpuemulator.Cpu.Cycle.{run_instruction, front_stages}
use wolf_cpuemulator.Cpu.Program.{moved, reg}

pub get_reg_val-general : (cpu : Cpu) (r : ℕ) → r < 15 → get_reg_val cpu r ≡ reg cpu r
unfolding get_reg_val
get_reg_val-general cpu r h = let e : ltb r 15 ≡ true = ground arith in rw e

get_elem?-get_or : (xs : List ℕ) (i : ℕ) → i < length xs → get_elem? xs i ≡ some (get_or xs i 0)
get_elem?-get_or [] i h = absurd (omega arith)
get_elem?-get_or (x ∷ xs) zero h = refl
get_elem?-get_or (x ∷ xs) (suc i) h = get_elem?-get_or xs i (omega arith)

write_reg_val-general :
    (c : Cpu) (r v : ℕ) → r < 15 → write_reg_val c r v ≡ record c { gen_regs = set c.gen_regs r v }
unfolding write_reg_val
write_reg_val-general c r v h =
    let e : ltb r 15 ≡ true = ground arith in
    let e1 : (r == 20) ≡ false = ground arith in
    let e2 : (r == 21) ≡ false = ground arith in
    let e3 : (r == 16) ≡ false = ground arith in
    let e4 : (r == 17) ≡ false = ground arith in
    let e5 : (r == 19) ≡ false = ground arith in
    let e6 : (r == 24) ≡ false = ground arith in rw (e, e1, e2, e3, e4, e5, e6)

module _ (c : Cpu) (code : ℕ) where
  -- What `merge_dest_reg` leaves
  abbrev pub merged : Cpu
  merged =
      let t = c.temp_data_reg in
      record c { gen_regs = set c.gen_regs t.dest_reg (moved code (reg c t.dest_reg) t.val_c) }

  pub merge_dest_reg-merged :
      length c.gen_regs ≡ 15
      → c.temp_data_reg.dest_reg < 15
      → code < 4
      → reg c c.temp_data_reg.dest_reg < 2 ^ 32
      → c.temp_data_reg.val_c < 2 ^ 32
      → merge_dest_reg c code ≡ some merged
  unfolding merge_dest_reg
  merge_dest_reg-merged n h hc ho hv =
      let t = c.temp_data_reg in
      let r = t.dest_reg in
      let old = reg c r in
      let there : get_elem? c.gen_regs r ≡ some old = get_elem?-get_or c.gen_regs r (omega arith) in
      let write : Option ℕ → Option Cpu = λ o. elim o [
        | none ↦ none
        | some x ↦ some (write_reg_val c r (data32_mask_be x t.val_c (mov_be code)))
      ] in
      ap write there
      ∙ ap some (
          rw (data32_mask_be-mov_be code old t.val_c hc ho hv)
            (write_reg_val-general c r (moved code old t.val_c) h))

-- Everything but a jump, a call and a return goes on to valP.
pub update_pc-next :
    (c : Cpu)
    → c.temp_data_reg.noexception ≡ 1
    → (c.temp_data_reg.icode == icode_jmp) ≡ false
    → (c.temp_data_reg.icode == icode_ocall) ≡ false
    → (c.temp_data_reg.icode == icode_ret) ≡ false
    → update_pc c ≡ record c { pc = u32 c.temp_data_reg.val_p }
unfolding update_pc
update_pc-next c e j o r = rw (e, j, o, r) (simp (through32_zero, through32_one, zero-bit_or))

module _ (cpu c3 c4 : Cpu) (answer : MmuStatus) where
  pub front_stages-running :
      decode (access_check (fetch_data cpu answer)) ≡ c3
      → execute c3 ≡ c4
      → c4.temp_data_reg.noexception ≡ 1
      → front_stages cpu answer ≡ c4
  unfolding front_stages ecall_proc
  front_stages-running decoded executed on =
      ap (λ c. ecall_proc (execute c)) decoded ∙ ap ecall_proc executed ∙ rw on

module _ {S : Type 0} (mmu : Mmu S) (cpu : Cpu) (s s' : S) (answer : MmuStatus) where
  pub run_instruction-stages :
      (c4 c5 : Cpu)
      → mmu.rd_mmu cpu.spe_regs cpu.pc 15 1 s ≡ (answer, s')
      → front_stages cpu answer ≡ c4
      → memory mmu c4 s' ≡ (c4, s')
      → writeback c4 ≡ some c5
      → run_instruction mmu cpu s ≡ some (update_pc c5, s')
  unfolding run_instruction
  run_instruction-stages c4 c5 fetched front same wrote =
      let back : Cpu × S → Option (Cpu × S) = λ m. writeback m.0 >>= λ c. some (update_pc c, m.1) in
      ap (λ (x : MmuStatus × S). back (memory mmu (front_stages cpu x.0) x.1)) fetched
      ∙ ap (λ (c : Cpu). back (memory mmu c s')) front
      ∙ ap back same
      ∙ ap (λ (o : Option Cpu). o >>= λ c. some (update_pc c, s')) wrote

  pub run_instruction-register :
      (c3 c4 : Cpu) (code : ℕ)
      → mmu.rd_mmu cpu.spe_regs cpu.pc 15 1 s ≡ (answer, s')
      → decode (access_check (fetch_data cpu answer)) ≡ c3
      → execute c3 ≡ c4
      → c4.temp_data_reg.noexception ≡ 1
      → memory mmu c4 s' ≡ (c4, s')
      → writeback c4 ≡ merge_dest_reg c4 code
      → length c4.gen_regs ≡ 15
      → c4.temp_data_reg.dest_reg < 15
      → code < 4
      → reg c4 c4.temp_data_reg.dest_reg < 2 ^ 32
      → c4.temp_data_reg.val_c < 2 ^ 32
      → (c4.temp_data_reg.icode == icode_jmp) ≡ false
      → (c4.temp_data_reg.icode == icode_ocall) ≡ false
      → (c4.temp_data_reg.icode == icode_ret) ≡ false
      → run_instruction mmu cpu s
        ≡ some (record (merged c4 code) { pc = u32 c4.temp_data_reg.val_p }, s')
  run_instruction-register c3 c4 code fetched decoded executed on same wrote n hd hc ho hv j o r =
      run_instruction-stages c4 (merged c4 code) fetched
        (front_stages-running cpu c3 c4 answer decoded executed on) same
        (wrote ∙ merge_dest_reg-merged c4 code n hd hc ho hv)
      ∙ ap (λ (c : Cpu). some (c, s')) (update_pc-next (merged c4 code) on j o r)
