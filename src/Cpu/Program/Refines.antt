-- ===== src/Cpu/Program/Refines.antt =====
-- The pipeline of src/cpu.c runs an instruction word as the instruction is meant.
use wolf_cpuemulator.Common.{
  ℕ, zero, suc, ◌<◌, ◌^◌, ◌≡◌, ◌∙◌, ap, arith, if◌then◌else◌, ◌==◌, Option, some, List, [], ◌∷◌,
  length, length-set, get_or, set, if_holds, ◌+◌, add32, Bool, sext16, u32,
}
use wolf_cpuemulator.Alu.{AluResult}
use wolf_cpuemulator.Cpu.State.{Cpu, TempData}
use wolf_cpuemulator.Cpu.Port.{Mmu}
use wolf_cpuemulator.Cpu.Cycle.{run_instruction}
use wolf_cpuemulator.Cpu.Program.{
  Instruction, mov_imm, mov_reg, alu_imm, code_of, result_of, jmp, IsInstruction, encode, perform,
  reg, next, moved,
}
use wolf_cpuemulator.Cpu.Program.Front.{answer_of}
use wolf_cpuemulator.Cpu.Program.Operated.{operated_lem, code_of-lt, AluResult_eq}
use wolf_cpuemulator.Cpu.Program.Alu.{operated, run_instruction-alu, operated-Operates}
use wolf_cpuemulator.Cpu.Program.Mov.{run_instruction-mov_imm, run_instruction-mov_reg, shifted}
use wolf_cpuemulator.Cpu.Program.Jmp.{run_instruction-jmp, jump_condition-taken}

-- The 15 general registers hold words.
pub record HasWords (cpu : Cpu) : Type 0 where
  pub fifteen : length cpu.gen_regs ≡ 15
  pub words : (r : ℕ) → reg cpu r < 2 ^ 32

moved_high :
    (code old imm : ℕ)
    → moved code old (shifted code imm) ≡ moved code old (if code == 3 then 0 else imm)
moved_high code old imm = ground arith

-- The result of a run, but for the pipeline's record
abbrev pub Reaches : {S : Type 0} → Option (Cpu × S) → Cpu → S → Type 0
Reaches o cpu s = (t : TempData) × (o ≡ some (record cpu { temp_data_reg = t }, s))

module _ {S : Type 0} (mmu : Mmu S) (s s' : S) where
  -- When the MMU answers the fetch at the program counter with the word of a valid MOV or JMP instruction, or
  -- of one of the ALU on a register and an immediate, a round of the pipeline from a CPU with 15 general registers of 32 bits is defined, and
  -- leaves the registers, the flags and the program counter that performing the instruction gives, and
  -- the MMU as the fetch left it; only the pipeline's record is left open.
  pub run_instruction-encode :
      (i : Instruction) (cpu : Cpu)
      → IsInstruction i
      → HasWords cpu
      → mmu.rd_mmu cpu.spe_regs cpu.pc 15 1 s ≡ (answer_of (encode i), s')
      → Reaches (run_instruction mmu cpu s) (perform i cpu) s'
  unfolding encode perform
  run_instruction-encode (mov_imm code r imm) cpu (hc, hr, hi) w fetched =
      let (t, e) =
        run_instruction-mov_imm mmu cpu s s' w.fifteen code r imm fetched hc hr hi (w.words r) in
      (
        t,
        e
            ∙ ap
                (λ (v : ℕ). some (record (next cpu r v cpu.spe_regs.scr) { temp_data_reg = t }, s'))
                (moved_high code (reg cpu r) imm),
      )
  run_instruction-encode (mov_reg code r source) cpu (hc, hr, hs) w fetched =
      run_instruction-mov_reg mmu cpu s s' w.fifteen code r source fetched hc hr hs (w.words r)
        (w.words source)
  run_instruction-encode (alu_imm op store r imm) cpu (hr, hi) w fetched =
      let (value, flags, small) = operated_lem op (reg cpu r) imm (w.words r) (omega arith) in
      let (t, e) =
        run_instruction-alu mmu cpu s s' r (code_of op) imm (operated op (reg cpu r) imm) store
          fetched (operated-Operates cpu op r imm) w.fifteen hr (code_of-lt op) hi (w.words r)
          (omega (arith, value, small)) in
      (
        t,
        e
            ∙ ap
                (λ (x : AluResult). some (
                  record (next cpu r (if store then x.res else reg cpu r) x.scr) {
                    temp_data_reg = t;
                  },
                  s',
                ))
                (AluResult_eq value flags),
      )
  run_instruction-encode (jmp cond offset) cpu (hc, ho) w fetched =
      let (t, e) = run_instruction-jmp mmu cpu s s' cond offset fetched hc ho in
      (
        t,
        e
            ∙ ap
                (λ (jumps : Bool). some (
                  record cpu {
                    pc = if jumps then add32 cpu.pc (sext16 offset) else u32 (cpu.pc + 4);
                    temp_data_reg = t;
                  },
                  s',
                ))
                (jump_condition-taken cond cpu.spe_regs.scr),
      )

-- What an instruction leaves is again 15 words.
get_or-set :
    (xs : List ℕ) (i j v : ℕ)
    → v < 2 ^ 32
    → ((k : ℕ) → get_or xs k 0 < 2 ^ 32)
    → get_or (set xs i v) j 0 < 2 ^ 32
get_or-set [] i j v h w = omega arith
get_or-set (x ∷ xs) zero zero v h w = h
get_or-set (x ∷ xs) zero (suc j) v h w = w (suc j)
get_or-set (x ∷ xs) (suc i) zero v h w = w 0
get_or-set (x ∷ xs) (suc i) (suc j) v h w = get_or-set xs i j v h (λ k. w (suc k))

next-HasWords : (cpu : Cpu) (r v scr : ℕ) → v < 2 ^ 32 → HasWords cpu → HasWords (next cpu r v scr)
next-HasWords cpu r v scr h w = record {
  fifteen = length-set cpu.gen_regs r v ∙ w.fifteen;
  words = λ k. get_or-set cpu.gen_regs r k v h w.words;
}

pub perform-HasWords :
    (i : Instruction) (cpu : Cpu) → IsInstruction i → HasWords cpu → HasWords (perform i cpu)
unfolding perform
perform-HasWords (mov_imm code r imm) cpu (hc, hr, hi) w =
    let small = w.words r in next-HasWords cpu r _ _ (ground arith) w
perform-HasWords (mov_reg code r source) cpu (hc, hr, hs) w =
    let small = w.words r in let small' = w.words source in next-HasWords cpu r _ _ (ground arith) w
perform-HasWords (alu_imm op store r imm) cpu (hr, hi) w =
    let small = w.words r in
    let (_, _, word) = operated_lem op (reg cpu r) imm small (omega arith) in
    next-HasWords cpu r _ _
      (if_holds (λ (x : ℕ). x < 2 ^ 32) store (result_of op (reg cpu r) imm) (reg cpu r) word small)
      w
perform-HasWords (jmp cond offset) cpu h w = record { fifteen = w.fifteen; words = w.words }
