-- ===== src/Cpu/Runs.antt =====
-- Any number of cycles of `start_cpu` in src/cpu.c, and what every cycle keeps of the state behind the
-- MMU and the bus.
use wolf_cpuemulator.Common.{
  ℕ, ◌≡◌, ◌∙◌, sym, ap, arith, some, length, is_set, ◌==◌, ◌&&◌, flag, ◌>>◌, subst, ◌⊎◌, inl, inr,
  ◌≤◌, not, ltb, Bool-cases, ◌&&&◌,
}
use wolf_cpuemulator.Common.Partial.{>>=-eq-some, eq_of_some}
use wolf_cpuemulator.Logic.{through32}
use wolf_cpuemulator.Endian.{mov_be}
use wolf_cpuemulator.Cpu.State.{Cpu, SpecialRegisters}
use wolf_cpuemulator.Cpu.Isa.{icode_mov}
use wolf_cpuemulator.Cpu.Execute.{exflag_mov_mem1, exflag_mov_mem2}
use wolf_cpuemulator.Cpu.Port.{Mmu, MmuData, Bus, BusSendData}
use wolf_cpuemulator.Cpu.Memory.{
  memory, memory_mov, load_mov, load_stack, store, read_addr_of, write_addr_of, write_data_of,
}
use wolf_cpuemulator.Cpu.Writeback.{writeback}
use wolf_cpuemulator.Cpu.UpdatePc.{update_pc}
use wolf_cpuemulator.Cpu.Irq.{irq_call, ask_irqcode, enter_irq}
use wolf_cpuemulator.Cpu.Cycle.{front_stages, run_instruction, cycle}
use wolf_cpuemulator.Cpu.Bounds.Instruction.{run_instruction_lem}

module _ {S : Type 0} (P : S → Type 0) where
  -- Every access through the MMU and over the bus keeps `P`.
  pub record IsKept (mmu : Mmu S) (bus : Bus S) : Type 0 where
    pub rd_kept :
        (spe : SpecialRegisters) (addr be fetch : ℕ) (s : S)
        → P s
        → P (mmu.rd_mmu spe addr be fetch s).1
    pub wr_kept :
        (spe : SpecialRegisters) (addr : ℕ) (data' : MmuData) (s : S)
        → P s
        → P (mmu.wr_mmu spe addr data' s).1
    pub send_kept :
        (addr : ℕ) (data' : BusSendData) (s : S) → P s → P (bus.send_data addr data' s).1
    pub recv_kept :
        (addr : ℕ) (data' : BusSendData) (s : S) → P s → P (bus.recv_data addr data' s).1

module _ {S : Type 0} (P : S → Type 0) (mmu : Mmu S) (bus : Bus S) (kept : IsKept P mmu bus) where
  load_mov-kept : (c : Cpu) (addr be : ℕ) (s : S) → P s → P (load_mov mmu c addr be s).1
  unfolding load_mov
  load_mov-kept c addr be s p = kept.rd_kept (c.spe_regs) addr be 0 s p

  load_stack-kept : (c : Cpu) (addr be : ℕ) (s : S) → P s → P (load_stack mmu c addr be s).1
  unfolding load_stack
  load_stack-kept c addr be s p = kept.rd_kept (c.spe_regs) addr be 0 s p

  store-kept : (c : Cpu) (addr v be : ℕ) (s : S) → P s → P (store mmu c addr v be s).1
  unfolding store
  store-kept c addr v be s p = kept.wr_kept (c.spe_regs) addr _ s p

  memory_mov-kept : (c : Cpu) (be : ℕ) (s : S) → P s → P (memory_mov mmu c be s).1
  unfolding memory_mov
  memory_mov-kept c be s p =
      let t = c.temp_data_reg in
      let stored =
        through32 (flag (t.icode == icode_mov && is_set (exflag_mov_mem1 t.ex_flag))) t.val_c in
      let loaded =
        through32 (flag (t.icode == icode_mov && is_set (exflag_mov_mem2 t.ex_flag))) t.val_c in
      ground (arith, store-kept c stored t.val_b be s p, load_mov-kept c loaded be s p)

  memory-kept : (c : Cpu) (s : S) → P s → P (memory mmu c s).1
  unfolding memory
  memory-kept c s p =
      let be = mov_be (c.temp_data_reg.ex_flag >> 3) in
      ground (
        arith,
        memory_mov-kept c be s p,
        load_stack-kept c (read_addr_of c) be s p,
        store-kept c (write_addr_of c) (write_data_of c) be s p,
      )

  run_instruction-kept :
      (c : Cpu) (s : S) {c' : Cpu} {s' : S} → run_instruction mmu c s ≡ some (c', s') → P s → P s'
  unfolding run_instruction
  run_instruction-kept c s e p =
      let (answer, s1) = mmu.rd_mmu (c.spe_regs) c.pc 15 1 s in
      let p1 = kept.rd_kept (c.spe_regs) c.pc 15 1 s p in
      let r = memory mmu (front_stages c answer) s1 in
      let p2 = memory-kept (front_stages c answer) s1 p1 in
      let (c3, _, same) = >>=-eq-some (writeback (r.0)) (λ c3. some (update_pc c3, r.1)) e in
      subst P (ap (λ t. t.1) (eq_of_some same)) p2

  ask_irqcode-kept : (s : S) → P s → P (ask_irqcode bus s).1
  unfolding ask_irqcode
  ask_irqcode-kept s p = kept.recv_kept _ _ _ (kept.send_kept _ _ s p)

  -- An interrupt is entered or not, and no register changes.
  irq_call-kept :
      (c : Cpu) (s : S) {c' : Cpu} {s' : S}
      → irq_call bus c s ≡ some (c', s')
      → P s
      → P s' × (length c'.gen_regs ≡ length c.gen_regs)
  unfolding irq_call enter_irq
  irq_call-kept c s e p = ground (arith, ask_irqcode-kept s p)

-- The states that cycles lead to, as long as each is defined. Between two cycles the threads of the
-- devices act on the state behind the CPU, and that of the interrupt controller may raise the CPU's
-- `external_irq`, which only the end of a cycle looks at.
pub data Runs {S : Type 0} (acts : S → S → Type 0) (mmu : Mmu S) (bus : Bus S) (c : Cpu) (s : S)
    : Cpu → S → Type 0 where
  start : Runs acts mmu bus c s c s
  next :
      {c1 c2 : Cpu} {s1 s2 : S}
      → Runs acts mmu bus c s c1 s1
      → cycle mmu bus c1 s1 ≡ some (c2, s2)
      → Runs acts mmu bus c s c2 s2
  raised :
      {c1 : Cpu} {s1 : S}
      → Runs acts mmu bus c s c1 s1
      → Runs acts mmu bus c s (record c1 { external_irq = 1 }) s1
  acted :
      {c1 : Cpu} {s1 s2 : S}
      → Runs acts mmu bus c s c1 s1
      → acts s1 s2
      → Runs acts mmu bus c s c1 s2

module _ {S : Type 0} (mmu : Mmu S) (bus : Bus S) where
  -- What stops a cycle: an interrupt whose number is past the bits of the mode mask
  abbrev pub IsStopped : Cpu → S → Type 0
  IsStopped c s =
      (d : Cpu) × (s' : S) × (run_instruction mmu c s ≡ some (d, s'))
      × (64 ≤ (ask_irqcode bus s').0)

  irq_call-cases :
      (c : Cpu) (s : S)
      → ((r : Cpu × S) × (irq_call bus c s ≡ some r)) ⊎ (64 ≤ (ask_irqcode bus s).0)
  unfolding irq_call
  irq_call-cases c s = elim (Bool-cases (is_set (c.spe_regs.bcr &&& 16))) [
    | inl e ↦ inl ((c, s), rw e)
    | inr e ↦ elim (Bool-cases (not (is_set c.external_irq))) [
      | inl n ↦ inl ((c, s), rw (e, n))
      | inr n ↦ elim (Bool-cases (ltb (ask_irqcode bus s).0 64)) [
        | inl l ↦ inl ((enter_irq c (ask_irqcode bus s).0, (ask_irqcode bus s).1), rw (e, n, l))
        | inr l ↦ inr (ground arith)
      ]
    ]
  ]

  -- A CPU with 15 general registers makes its next cycle, or is stopped.
  pub cycle-cases :
      (c : Cpu) (s : S)
      → length c.gen_regs ≡ 15
      → ((r : Cpu × S) × (cycle mmu bus c s ≡ some r)) ⊎ IsStopped c s
  unfolding cycle
  cycle-cases c s n =
      let (d, s', ran, _) = run_instruction_lem mmu c s n in
      elim (irq_call-cases d s') [ inl (r, e) ↦ inl (r, rw ran e) | inr h ↦ inr (d, s', ran, h) ]

module _ {S : Type 0} (P : S → Type 0) (mmu : Mmu S) (bus : Bus S) (kept : IsKept P mmu bus) where
  cycle-kept :
      (c : Cpu) (s : S) {c' : Cpu} {s' : S}
      → cycle mmu bus c s ≡ some (c', s')
      → P s × (length c.gen_regs ≡ 15)
      → P s' × (length c'.gen_regs ≡ 15)
  unfolding cycle
  cycle-kept c s e p =
      let (r, ran, called) =
        >>=-eq-some (run_instruction mmu c s) (λ r. irq_call bus (r.0) (r.1)) e in
      let (d, s2, ran', fifteen) = run_instruction_lem mmu c s p.1 in
      let same = eq_of_some (sym ran' ∙ ran) in
      let p' = run_instruction-kept P mmu bus kept c s {c' = r.0} {s' = r.1} ran (p.0) in
      let (q, long) = irq_call-kept P mmu bus kept (r.0) (r.1) called p' in
      (q, long ∙ (ap (λ t. length (t.0.gen_regs)) (sym same) ∙ fifteen))

  -- From a CPU with 15 general registers, any number of cycles, with interrupts and acts of the
  -- devices between them, keeps the 15 registers, and what the acts and every access through the MMU
  -- and over the bus keep.
  pub Runs-kept :
      {acts : S → S → Type 0} {c : Cpu} {s : S} {c' : Cpu} {s' : S}
      → ((s1 s2 : S) → acts s1 s2 → P s1 → P s2)
      → P s × (length c.gen_regs ≡ 15)
      → Runs acts mmu bus c s c' s'
      → P s' × (length c'.gen_regs ≡ 15)
  Runs-kept safe p start = p
  Runs-kept safe p (next {c1} {c2} {s1} {s2} before e) =
      cycle-kept c1 s1 e (Runs-kept safe p before)
  Runs-kept safe p (raised before) = Runs-kept safe p before
  Runs-kept safe p (acted before a) = let (q, n) = Runs-kept safe p before in (safe _ _ a q, n)
