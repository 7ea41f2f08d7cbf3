-- ===== src/System/Bios.antt =====
-- A program in the BIOS file: it runs on the machine of src/cpu.c and src/controllers/mmu_controller.c as
-- its instructions are meant.
use wolf_cpuemulator.Common.{
  ℕ, ◌-◌, ◌%◌, ◌^◌, ◌≤◌, ◌<◌, ◌≡◌, ◌∙◌, refl, arith, true, false, Option, some, List, [], ◌∷◌,
  length, is_set, ◌&&&◌, u16,
}
use wolf_cpuemulator.Common.Bits.{bit_and_mask}
use wolf_cpuemulator.Endian.{bytes4_at, sep_int_for_4_bytes_b, be_data}
use wolf_cpuemulator.Logic.{through8}
use wolf_cpuemulator.Bus.{World}
use wolf_cpuemulator.Cpu.State.{Cpu, SpecialRegisters, is_in_kern_mode, is_pgo_on}
use wolf_cpuemulator.Cpu.Port.{Bus}
use wolf_cpuemulator.Cpu.Fetch.{MmuStatus}
use wolf_cpuemulator.MmuController.{paddr_get}
use wolf_cpuemulator.MmuController.Access.{
  be_align, Machine, mmu_memory_rd_f, read_region, read_bios, base_bios_addr,
}
use wolf_cpuemulator.MmuController.Store.{mmu_port, step}
use wolf_cpuemulator.Cpu.Program.{
  Instruction, mov_imm, mov_reg, alu_imm, jmp, IsInstruction, encode, perform,
}
use wolf_cpuemulator.Cpu.Program.Front.{answer_of}
use wolf_cpuemulator.Cpu.Program.Refines.{HasWords, Reaches}
use wolf_cpuemulator.Cpu.Program.Trace.{
  Trace, end, then_by, run_instructions, run_instructions-Trace,
}

-- The BIOS file has the word at an address of its region.
pub record HasWord (file : List ℕ) (addr w : ℕ) : Type 0 where
  pub from : base_bios_addr ≤ addr
  pub upto : addr < 2 ^ 32
  pub aligned : addr % 4 ≡ 0
  pub there : bytes4_at file (addr - base_bios_addr) ≡ some (sep_int_for_4_bytes_b w)

-- The file has, at each program counter, the next instruction of a list. Performing them leads from the
-- first state to the last.
pub data Performs (file : List ℕ) : List Instruction → Cpu → Cpu → Type 0 where
  done : {c : Cpu} → Performs file [] c c
  first :
      {i : Instruction} {is : List Instruction} {c c' : Cpu}
      → IsInstruction i
      → HasWord file c.pc (encode i)
      → Performs file is (perform i c) c'
      → Performs file (i ∷ is) c c'

-- The kernel, without paging
pub record IsFlat (spe : SpecialRegisters) : Type 0 where
  pub kernel : is_in_kern_mode spe.bcr ≡ true
  pub flat : is_pgo_on spe.bcr ≡ false

module _ {D : Type 0} (bus : Bus (World D)) (file : List ℕ) (m : Machine D) where
  word_mask : be_align 15 ≡ 3
  unfolding be_data through8
  word_mask = refl

  word_aligned : (addr : ℕ) → addr % 4 ≡ 0 → is_set (addr &&& be_align 15) ≡ false
  word_aligned addr h = rw word_mask (ground (arith, bit_and_mask 2 addr))

  bios_word :
      (spe : SpecialRegisters) (addr w : ℕ)
      → IsFlat spe
      → HasWord file addr w
      → read_bios file spe addr m ≡ some (answer_of w, m)
  unfolding read_bios
  bios_word spe addr w f h =
      let short : u16 (addr - base_bios_addr) ≡ addr - base_bios_addr =
        omega (arith, h.from, h.upto) in
      rw (f.kernel, short, h.there) refl

  bios_region :
      (spe : SpecialRegisters) (addr be : ℕ)
      → base_bios_addr ≤ addr
      → read_region bus file spe addr be m ≡ read_bios file spe addr m
  unfolding read_region
  bios_region spe addr be h = ground arith

  fetch_bios :
      (spe : SpecialRegisters) (addr w : ℕ)
      → IsFlat spe
      → HasWord file addr w
      → mmu_memory_rd_f bus file spe addr 15 1 m ≡ some (answer_of w, m)
  unfolding mmu_memory_rd_f paddr_get
  fetch_bios spe addr w f h =
      rw (f.flat, word_aligned addr h.aligned)
        (bios_region spe addr 15 h.from ∙ bios_word spe addr w f h)

  step-some :
      (g : Machine D → Option (MmuStatus × Machine D)) (a : MmuStatus)
      → g m ≡ some (a, m)
      → step g (some m) ≡ (a, some m)
  unfolding step
  step-some g a e = rw (step, e) refl

  perform-IsFlat : (i : Instruction) (c : Cpu) → IsFlat c.spe_regs → IsFlat (perform i c).spe_regs
  unfolding perform
  perform-IsFlat (mov_imm code r imm) c f = record { kernel = f.kernel; flat = f.flat }
  perform-IsFlat (mov_reg code r source) c f = record { kernel = f.kernel; flat = f.flat }
  perform-IsFlat (alu_imm op store r imm) c f = record { kernel = f.kernel; flat = f.flat }
  perform-IsFlat (jmp cond offset) c f = record { kernel = f.kernel; flat = f.flat }

  Performs-Trace :
      {is : List Instruction} {c c' : Cpu}
      → Performs file is c c'
      → IsFlat c.spe_regs
      → Trace (mmu_port bus file) is c (some m) c' (some m)
  unfolding mmu_port
  Performs-Trace done f = end
  Performs-Trace (first {i} {is} {c} {c'} v h rest) f =
      then_by v
        (step-some (mmu_memory_rd_f bus file c.spe_regs c.pc 15 1) (answer_of (encode i))
          (fetch_bios c.spe_regs c.pc (encode i) f h))
        (Performs-Trace rest (perform-IsFlat i c f))

  -- When the BIOS file has, at the program counters that they lead to, the words of a list of MOV, JMP and
  -- ALU instructions, a CPU in kernel mode without paging, with 15 general registers of 32 bits, runs as
  -- many rounds of the pipeline over the MMU as there are instructions, and ends in the state to which
  -- performing them leads, but for the pipeline's record, which is left open; the memory, the caches and
  -- the devices are as before.
  pub run_instructions-Performs :
      {is : List Instruction} {c c' : Cpu}
      → Performs file is c c'
      → IsFlat c.spe_regs
      → HasWords c
      → Reaches (run_instructions (mmu_port bus file) (length is) c (some m)) c' (some m)
  run_instructions-Performs run f w =
      run_instructions-Trace (mmu_port bus file) (Performs-Trace run f) w
