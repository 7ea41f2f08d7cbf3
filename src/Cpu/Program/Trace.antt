-- ===== src/Cpu/Program/Trace.antt =====
-- A run of instructions: the pipeline of src/cpu.c goes through the states that the instructions mean.
use wolf_cpuemulator.Common.{ℕ, zero, suc, ◌≡◌, ◌∙◌, ap, refl, Option, some, List, [], ◌∷◌, length}
use wolf_cpuemulator.Common.Partial.{◌>>=◌}
use wolf_cpuemulator.Cpu.State.{Cpu, TempData}
use wolf_cpuemulator.Cpu.Port.{Mmu}
use wolf_cpuemulator.Cpu.Cycle.{run_instruction}
use wolf_cpuemulator.Cpu.Program.{
  Instruction, mov_imm, mov_reg, alu_imm, jmp, IsInstruction, encode, perform,
}
use wolf_cpuemulator.Cpu.Program.Front.{answer_of}
use wolf_cpuemulator.Cpu.Program.Refines.{
  HasWords, Reaches, run_instruction-encode, perform-HasWords,
}

module _ {S : Type 0} (mmu : Mmu S) where
  -- That many rounds of the stages, with no interrupt between them
  unfoldable pub run_instructions : ℕ → Cpu → S → Option (Cpu × S)
  run_instructions zero cpu s = some (cpu, s)
  run_instructions (suc n) cpu s = run_instruction mmu cpu s >>= λ r. run_instructions n r.0 r.1

  -- The MMU answers the fetch at each program counter with the word of the next instruction of a
  -- list. Performing them leads from the first state to the last.
  pub data Trace : List Instruction → Cpu → S → Cpu → S → Type 0 where
    end : {c : Cpu} {s : S} → Trace [] c s c s
    then_by :
        {i : Instruction} {is : List Instruction} {c c' : Cpu} {s s1 s' : S}
        → IsInstruction i
        → mmu.rd_mmu c.spe_regs c.pc 15 1 s ≡ (answer_of (encode i), s1)
        → Trace is (perform i c) s1 c' s'
        → Trace (i ∷ is) c s c' s'

  -- Performing an instruction does not look at the pipeline's record.
  perform-temp :
      (i : Instruction) (c : Cpu) (t : TempData)
      → perform i (record c { temp_data_reg = t }) ≡ record (perform i c) { temp_data_reg = t }
  unfolding perform
  perform-temp (mov_imm code r imm) c t = refl
  perform-temp (mov_reg code r source) c t = refl
  perform-temp (alu_imm op store r imm) c t = refl
  perform-temp (jmp cond offset) c t = refl

  run_instructions-from :
      {is : List Instruction} {c c' : Cpu} {s s' : S} (t : TempData)
      → Trace is c s c' s'
      → HasWords c
      → Reaches (run_instructions (length is) (record c { temp_data_reg = t }) s) c' s'
  unfolding run_instructions
  run_instructions-from t end w = (t, refl)
  run_instructions-from t (then_by {i} {is} {c} {c'} {s} {s1} {s'} v fetched rest) w =
      let c0 : Cpu = record c { temp_data_reg = t } in
      let (t1, e) =
        run_instruction-encode mmu s s1 i c0 v (record { fifteen = w.fifteen; words = w.words })
          fetched in
      let (t2, e2) = run_instructions-from t1 rest (perform-HasWords i c v w) in
      (
        t2,
        ap (λ (o : Option (Cpu × S)). o >>= λ r. run_instructions (length is) r.0 r.1)
              (e
                ∙ ap (λ (x : Cpu). some (record x { temp_data_reg = t1 }, s1)) (perform-temp i c t))
            ∙ e2,
      )

  -- From a CPU with 15 general registers of 32 bits, over any MMU that answers the fetches of a list
  -- of valid MOV and JMP instructions, and of those of the ALU on a register and an immediate, with their words, as many rounds of the pipeline as
  -- there are instructions are defined, and end in the state to which performing the instructions one
  -- after the other leads and in the last state of the MMU; only the pipeline's record is left open.
  pub run_instructions-Trace :
      {is : List Instruction} {c c' : Cpu} {s s' : S}
      → Trace is c s c' s'
      → HasWords c
      → Reaches (run_instructions (length is) c s) c' s'
  run_instructions-Trace {c = c} run w = run_instructions-from c.temp_data_reg run w
