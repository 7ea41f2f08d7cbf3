-- ===== src/Cpu/Program/Alu.antt =====
-- The ALU on a register and an immediate through all stages of src/cpu.c.
use wolf_cpuemulator.Common.{
  ℕ, ◌+◌, ◌*◌, ◌/◌, ◌%◌, ◌<◌, ◌^◌, ◌≡◌, ◌∙◌, refl, arith, Bool, true, false, flag, if◌then◌else◌,
  some, if_holds, length, u32, not32, ◌>>◌, ◌&&&◌,
}
use wolf_cpuemulator.Common.Bits.{
  zero-bit_and, bit_and_mask, bit_or_fields, bit_or-zero, zero-bit_or,
}
use wolf_cpuemulator.Logic.Select.{
  mux32_if, through8_zero, through8_one, through32_zero, through32_one,
}
use wolf_cpuemulator.Alu.{
  AluResult, get_scr_cf_flag, alu_add_op, alu_and_op, alu_or_op, alu_xor_op, alu_neg_op, alu_not_op,
}
use wolf_cpuemulator.Cpu.State.{Cpu, TempData}
use wolf_cpuemulator.Cpu.Isa.{icode_alu}
use wolf_cpuemulator.Cpu.Trap.{access_check}
use wolf_cpuemulator.Cpu.Fetch.{fetch_data}
use wolf_cpuemulator.Cpu.Decode.{decode, get_idata, get_dest_reg}
use wolf_cpuemulator.Cpu.Execute.{execute, exec_alu, alu_operate}
use wolf_cpuemulator.Cpu.Program.{
  Operation, op_add, op_sub, op_and, op_or, op_xor, op_neg, op_not, code_of, word, reg, next,
  swap12,
}
use wolf_cpuemulator.Cpu.Program.Front.{answer_of, decoded, decode-word}
use wolf_cpuemulator.Cpu.Port.{Mmu}
use wolf_cpuemulator.Cpu.Memory.{memory}
use wolf_cpuemulator.Cpu.Writeback.{writeback}
use wolf_cpuemulator.Cpu.Cycle.{run_instruction}
use wolf_cpuemulator.Cpu.Program.Back.{run_instruction-register, get_reg_val-general}
use wolf_cpuemulator.Cpu.Program.Cut.{alu_fields, alu-IsCut}

get_idata-swap12 : (i c : ℕ) → i < 2 ^ 12 → get_idata icode_alu (swap12 i) c ≡ i
unfolding get_idata
get_idata-swap12 i c h =
    let x = swap12 i in
    let low : (x &&& 0xff) ≡ i / 16 = omega (arith, bit_and_mask 8 x) in
    simp (through32_zero, through32_one, zero-bit_or, bit_or-zero)
      (rw (low, bit_or_fields 4 (i / 16) (x >> 8) (omega arith)) (omega arith))

get_dest_reg-alu : (r : ℕ) → r < 15 → get_dest_reg icode_alu r 0 ≡ r
unfolding get_dest_reg
get_dest_reg-alu r h = simp (through8_zero, through8_one, zero-bit_or) (omega arith)

module _ (cpu : Cpu) (r f i : ℕ) (store : Bool) where
  abbrev pub flags : ℕ
  flags = 4 * flag store

  abbrev pub rest : ℕ
  rest = r * 2 ^ 21 + f * 2 ^ 17 + flags * 2 ^ 12 + swap12 i

  abbrev pub in_flight : TempData
  in_flight = record (decoded cpu 0 icode_alu rest (alu_fields r f flags (swap12 i)) r) {
    val_a = reg cpu r;
    val_c = i;
  }

  decode-alu :
      r < 15
      → f < 16
      → i < 2 ^ 12
      → decode (access_check (fetch_data cpu (answer_of (word 0 icode_alu rest))))
        ≡ record cpu { temp_data_reg = in_flight }
  decode-alu hr hf hi =
      let small : flags < 32 = ground arith in
      let cut = alu-IsCut r f flags (swap12 i) hr hf small (omega arith) in
      decode-word cpu 0 icode_alu rest (alu_fields r f flags (swap12 i)) r cut
        (get_dest_reg-alu r hr) hr
      ∙ rw (get_reg_val-general cpu r hr, get_idata-swap12 i 0 hi)

  -- `res` and `scr` are what the ALU gives.
  abbrev executed : ℕ → ℕ → Cpu
  executed res scr = record cpu {
    spe_regs = record (cpu.spe_regs) { scr = scr };
    temp_data_reg = record in_flight { val_c = if store then res else reg cpu r };
  }

-- The operation that `f` names, without a carry
abbrev pub Operates : Cpu → ℕ → ℕ → ℕ → AluResult → Type 0
Operates cpu r f i result =
    (store : Bool)
    → alu_operate (record cpu { temp_data_reg = in_flight cpu r f i store }) f 0 ≡ (
      record cpu {
        spe_regs = record (cpu.spe_regs) { scr = result.scr };
        temp_data_reg = in_flight cpu r f i store;
      },
      result.res,
    )

module _ (cpu : Cpu) (r f i : ℕ) (result : AluResult) where
  execute-alu :
      (store : Bool)
      → f < 16
      → Operates cpu r f i result
      → reg cpu r < 2 ^ 32
      → result.res < 2 ^ 32
      → execute (record cpu { temp_data_reg = in_flight cpu r f i store })
        ≡ executed cpu r f i store result.res result.scr
  unfolding execute exec_alu
  execute-alu true hf operates ha hr =
      let same : f % 2 ^ 8 ≡ f = omega arith in
      let twice : u32 result.res ≡ result.res = omega arith in
      rw (zero-bit_and (get_scr_cf_flag cpu.spe_regs.scr), zero-bit_or f, same)
        (rw (operates true) (rw (mux32_if true (reg cpu r) result.res, twice)))
  execute-alu false hf operates ha hr =
      let same : f % 2 ^ 8 ≡ f = omega arith in
      let twice : u32 (reg cpu r) ≡ reg cpu r = omega arith in
      rw (zero-bit_and (get_scr_cf_flag cpu.spe_regs.scr), zero-bit_or f, same)
        (rw (operates false) (rw (mux32_if false (reg cpu r) result.res, twice)))

-- The function of src/alu.c that runs an operation
abbrev pub operated : Operation → ℕ → ℕ → AluResult
operated op_add a imm = alu_add_op a imm 0
operated op_sub a imm = alu_add_op a (not32 imm) 1
operated op_and a imm = alu_and_op a imm
operated op_or a imm = alu_or_op a imm
operated op_xor a imm = alu_xor_op a imm
operated op_neg a imm = alu_neg_op a 0
operated op_not a imm = alu_not_op a 0

pub operated-Operates :
    (cpu : Cpu) (op : Operation) (r i : ℕ)
    → Operates cpu r (code_of op) i (operated op (reg cpu r) i)
unfolding alu_operate
operated-Operates cpu op_add r i store = refl
operated-Operates cpu op_sub r i store = refl
operated-Operates cpu op_and r i store = refl
operated-Operates cpu op_or r i store = refl
operated-Operates cpu op_xor r i store = refl
operated-Operates cpu op_neg r i store = refl
operated-Operates cpu op_not r i store = refl

module _ {S : Type 0} (mmu : Mmu S) (cpu : Cpu) (s s' : S) (r f i : ℕ) (result : AluResult) where
  pub run_instruction-alu :
      (store : Bool)
      → mmu.rd_mmu cpu.spe_regs cpu.pc 15 1 s
        ≡ (answer_of (word 0 icode_alu (rest cpu r f i store)), s')
      → Operates cpu r f i result
      → length cpu.gen_regs ≡ 15
      → r < 15
      → f < 16
      → i < 2 ^ 12
      → reg cpu r < 2 ^ 32
      → result.res < 2 ^ 32
      → (t : TempData) × (run_instruction mmu cpu s
          ≡ some (
            record (next cpu r (if store then result.res else reg cpu r) result.scr) {
              temp_data_reg = t;
            },
            s',
          ))
  unfolding memory writeback
  run_instruction-alu store fetched operates n hr hf hi ha hres =
      let c4 = executed cpu r f i store result.res result.scr in
      let v = if store then result.res else reg cpu r in
      let small : v < 2 ^ 32 =
        if_holds (λ (x : ℕ). x < 2 ^ 32) store result.res (reg cpu r) hres ha in
      let twice : u32 (u32 (cpu.pc + 4)) ≡ u32 (cpu.pc + 4) = omega arith in
      (
        c4.temp_data_reg,
        run_instruction-register mmu cpu s s' (answer_of (word 0 icode_alu (rest cpu r f i store)))
              (record cpu { temp_data_reg = in_flight cpu r f i store }) c4 0 fetched
              (decode-alu cpu r f i store hr hf hi)
              (execute-alu cpu r f i result store hf operates ha hres) refl refl refl n hr
              (omega arith) ha small refl refl refl
            ∙ rw twice,
      )
