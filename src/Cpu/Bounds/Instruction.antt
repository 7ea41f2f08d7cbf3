-- ===== src/Cpu/Bounds/Instruction.antt =====
-- The whole cycle: it never leaves the register array, and keeps its 15 registers.
use wolf_cpuemulator.Common.{ℕ, ◌≡◌, arith, some, length, ap, ◌∙◌, Bool-cases, inl, inr}
use wolf_cpuemulator.Common.{
  is_set, ◌==◌, length-set, ◌&&◌, flag, ◌>>◌, Option-cases, ltb, subst, get_elem?,
}
use wolf_cpuemulator.Logic.{through32}
use wolf_cpuemulator.Endian.{mov_be, data32_mask_be}
use wolf_cpuemulator.Cpu.Isa.{icode_mov}
use wolf_cpuemulator.Cpu.Execute.{exflag_mov_mem1, exflag_mov_mem2}
use wolf_cpuemulator.Common.Partial.{◌>>=◌, some_of-ne-none, eq_of_some}
use wolf_cpuemulator.Cpu.State.{Cpu}
use wolf_cpuemulator.Cpu.Trap.{ecall}
use wolf_cpuemulator.Cpu.Port.{Mmu}
use wolf_cpuemulator.Cpu.Memory.{memory, memory_mov, load_mov, load_stack, store, check_access}
use wolf_cpuemulator.Cpu.Memory.{read_addr_of, write_addr_of, write_data_of}
use wolf_cpuemulator.Cpu.Registers.{write_reg_val, write_special_reg}
use wolf_cpuemulator.Cpu.Writeback.{writeback, merge_dest_reg, store_gen_reg, wb_pop}
use wolf_cpuemulator.Cpu.UpdatePc.{update_pc}
use wolf_cpuemulator.Cpu.Cycle.{front_stages, run_instruction}
use wolf_cpuemulator.Cpu.Bounds.Execute.{Keeps, Keeps-refl, Keeps-AreInBounds, writeback-ne-none}
use wolf_cpuemulator.Cpu.Bounds.Front.{front_stages-AreInBounds, front_stages-gen_regs}

module _ {S : Type 0} (mmu : Mmu S) where
  check_access-Keeps : (c : Cpu) (stat addr : ℕ) → Keeps c (check_access c stat addr)
  unfolding check_access ecall
  check_access-Keeps c stat addr = ground arith

  load_mov-Keeps : (c : Cpu) (addr be : ℕ) (s : S) → Keeps c (load_mov mmu c addr be s).0
  unfolding load_mov check_access ecall
  load_mov-Keeps c addr be s = ground arith

  load_stack-Keeps : (c : Cpu) (addr be : ℕ) (s : S) → Keeps c (load_stack mmu c addr be s).0
  unfolding load_stack check_access ecall
  load_stack-Keeps c addr be s = ground arith

  store-Keeps : (c : Cpu) (addr v be : ℕ) (s : S) → Keeps c (store mmu c addr v be s).0
  unfolding store
  store-Keeps c addr v be s = check_access-Keeps c _ addr

  memory_mov-Keeps : (c : Cpu) (be : ℕ) (s : S) → Keeps c (memory_mov mmu c be s).0
  unfolding memory_mov
  memory_mov-Keeps c be s =
      let t = c.temp_data_reg in
      let stored =
        through32 (flag (t.icode == icode_mov && is_set (exflag_mov_mem1 t.ex_flag))) t.val_c in
      let loaded =
        through32 (flag (t.icode == icode_mov && is_set (exflag_mov_mem2 t.ex_flag))) t.val_c in
      ground (arith, store-Keeps c stored t.val_b be s, load_mov-Keeps c loaded be s, Keeps-refl c)

  memory-Keeps : (c : Cpu) (s : S) → Keeps c (memory mmu c s).0
  unfolding memory
  memory-Keeps c s =
      let be = mov_be (c.temp_data_reg.ex_flag >> 3) in
      ground (
        arith,
        memory_mov-Keeps c be s,
        load_stack-Keeps c (read_addr_of c) be s,
        store-Keeps c (write_addr_of c) (write_data_of c) be s,
        Keeps-refl c,
      )

write_reg_val-length :
    (c : Cpu) (r v : ℕ) → length (write_reg_val c r v).gen_regs ≡ length c.gen_regs
unfolding write_reg_val write_special_reg
write_reg_val-length c r v = ground (arith, length-set c.gen_regs r v)

merge_dest_reg-length :
    (c : Cpu) {d : Cpu} (code : ℕ)
    → merge_dest_reg c code ≡ some d
    → length d.gen_regs ≡ length c.gen_regs
unfolding merge_dest_reg
merge_dest_reg-length c code h =
    let t = c.temp_data_reg in
    elim (Option-cases (get_elem? c.gen_regs t.dest_reg)) [
      | inl e ↦ absurd (cc (h, e))
      | inr (old, e) ↦
          subst (λ x. length x.gen_regs ≡ length c.gen_regs)
            (eq_of_some (rw (merge_dest_reg, e) at h))
            (write_reg_val-length c t.dest_reg (data32_mask_be old t.val_c (mov_be code)))
    ]

store_gen_reg-length :
    (c : Cpu) {d : Cpu} (i v : ℕ)
    → store_gen_reg c i v ≡ some d
    → length d.gen_regs ≡ length c.gen_regs
unfolding store_gen_reg
store_gen_reg-length c i v h = elim (Bool-cases (ltb i 15)) [
  | inl e ↦
      subst (λ x. length x.gen_regs ≡ length c.gen_regs) (eq_of_some (rw e at h))
        (length-set c.gen_regs i v)
  | inr e ↦ absurd (cc (h, e))
]

wb_pop-length : (c : Cpu) {d : Cpu} → wb_pop c ≡ some d → length d.gen_regs ≡ length c.gen_regs
unfolding wb_pop
wb_pop-length c h =
    let t = c.temp_data_reg in
    elim (Option-cases (store_gen_reg c t.dest_reg2 t.val_b)) [
      | inl e ↦ absurd (cc (h, e))
      | inr (c1, e) ↦
          store_gen_reg-length c1 t.dest_reg t.val_c (rw (wb_pop, e) at h)
          ∙ store_gen_reg-length c t.dest_reg2 t.val_b e
    ]

writeback-length :
    (c : Cpu) {d : Cpu} → writeback c ≡ some d → length d.gen_regs ≡ length c.gen_regs
unfolding writeback
writeback-length c {d} h =
    let t = c.temp_data_reg in
    ground (
      arith,
      λ (e : merge_dest_reg c 0 ≡ some d). merge_dest_reg-length c 0 e,
      λ (e : merge_dest_reg c (t.ex_flag >> 3) ≡ some d).
          merge_dest_reg-length c (t.ex_flag >> 3) e,
      write_reg_val-length c t.dest_reg t.val_b,
      λ (e : store_gen_reg c t.dest_reg t.val_b ≡ some d).
          store_gen_reg-length c t.dest_reg t.val_b e,
      λ (e : wb_pop c ≡ some d). wb_pop-length c e,
    )

update_pc-gen_regs : (c : Cpu) → (update_pc c).gen_regs ≡ c.gen_regs
unfolding update_pc
update_pc-gen_regs c = ground arith

-- Whatever the MMU does, an instruction run from a CPU with 15 general registers never indexes them
-- out of range, and leaves a CPU with 15 general registers.
pub run_instruction_lem :
    {S : Type 0} (mmu : Mmu S) (c : Cpu) (s : S)
    → length c.gen_regs ≡ 15
    → (d : Cpu) × (s' : S) × (run_instruction mmu c s ≡ some (d, s')) × (length d.gen_regs ≡ 15)
unfolding run_instruction
run_instruction_lem mmu c s n =
    let (answer, s1) = mmu.rd_mmu c.spe_regs c.pc 0b1111 1 s in
    let f = front_stages c answer in
    let (c2, s2) = memory mmu f s1 in
    let k : Keeps f (memory mmu f s1).0 = memory-Keeps mmu f s1 in
    let n2 : length (memory mmu f s1).0.gen_regs ≡ 15 =
      ap length (k.same_gen ∙ front_stages-gen_regs c answer) ∙ n in
    let (c3, e) = some_of-ne-none (writeback (memory mmu f s1).0) (
      writeback-ne-none (memory mmu f s1).0 n2
        (Keeps-AreInBounds f (memory mmu f s1).0 k (front_stages-AreInBounds c answer))) in
    (
      update_pc c3,
      s2,
      ap (λ m. m >>= λ x. some (update_pc x, s2)) e,
      ap length (update_pc-gen_regs c3) ∙ writeback-length (memory mmu f s1).0 e ∙ n2,
    )
