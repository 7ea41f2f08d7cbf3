-- ===== src/Cpu/Program/Mov.antt =====
-- MOV of an immediate and of a register through all stages of src/cpu.c.
use wolf_cpuemulator.Common.{
  ℕ, ◌+◌, ◌*◌, ◌/◌, ◌<◌, ◌^◌, ◌≡◌, ◌∙◌, refl, arith, false, flag, if◌then◌else◌, ◌==◌, some, length,
  u32, ◌>>◌, ◌<<◌, ◌&&&◌, is_set, ◌&&◌, Bool-cases, inl, inr,
}
use wolf_cpuemulator.Common.Bits.{bit_and_mask, bit_or_fields, bit_or-zero, zero-bit_or}
use wolf_cpuemulator.Logic.{mux32}
use wolf_cpuemulator.Logic.Select.{
  mux32_if, through8_zero, through8_one, through32_zero, through32_one,
}
use wolf_cpuemulator.Cpu.State.{Cpu, TempData}
use wolf_cpuemulator.Cpu.Isa.{icode_mov}
use wolf_cpuemulator.Cpu.Trap.{access_check}
use wolf_cpuemulator.Cpu.Fetch.{MmuStatus, fetch_data}
use wolf_cpuemulator.Cpu.Decode.{decode, get_idata, get_dest_reg}
use wolf_cpuemulator.Cpu.Execute.{execute, exec_mov, set_val_c}
use wolf_cpuemulator.Cpu.Port.{Mmu}
use wolf_cpuemulator.Cpu.Memory.{memory, memory_mov}
use wolf_cpuemulator.Cpu.Writeback.{writeback, merge_dest_reg}
use wolf_cpuemulator.Cpu.Cycle.{run_instruction}
use wolf_cpuemulator.Cpu.Program.{word, reg, next, moved, swap16}
use wolf_cpuemulator.Cpu.Program.Front.{answer_of, decoded, decode-word}
use wolf_cpuemulator.Cpu.Program.Cut.{
  mov_imm_rest, mov_imm_fields, mov_imm-IsCut, mov_reg_rest, mov_reg_fields, mov_reg-IsCut,
}
use wolf_cpuemulator.Cpu.Program.Back.{run_instruction-register, get_reg_val-general}

get_idata-swap16 : (i c : ℕ) → i < 2 ^ 16 → get_idata icode_mov (swap16 i) c ≡ i
unfolding get_idata
get_idata-swap16 i c h =
    let x = swap16 i in
    let low : (x &&& 0xff) ≡ i / 256 = omega (arith, bit_and_mask 8 x) in
    simp (through32_zero, through32_one, bit_or-zero)
      (rw (low, bit_or_fields 8 (i / 256) (x >> 8) (omega arith)) (omega arith))

get_dest_reg-mov : (r b : ℕ) → r < 15 → get_dest_reg icode_mov r b ≡ r
unfolding get_dest_reg
get_dest_reg-mov r b h = simp (through8_zero, through8_one, zero-bit_or) (omega arith)

-- A MOV between registers, or from an immediate, in flight
record IsMov (code : ℕ) (c : Cpu) : Type 0 where
  running : c.temp_data_reg.noexception ≡ 1
  is_mov : c.temp_data_reg.icode ≡ icode_mov
  no_mem1 : (c.temp_data_reg.ex_flag >> 1 &&& 1) ≡ 0
  no_mem2 : (c.temp_data_reg.ex_flag &&& 1) ≡ 0
  width : c.temp_data_reg.ex_flag >> 3 ≡ code

IsMov-fields :
    (code : ℕ) (cpu : Cpu) (t : TempData)
    → t.noexception ≡ 1
    → t.icode ≡ icode_mov
    → t.ex_flag ≡ code * 8
    → code < 4
    → IsMov code (record cpu { temp_data_reg = t })
IsMov-fields code cpu t on mov plain small = record {
  running = on;
  is_mov = mov;
  no_mem1 = omega (arith, bit_and_mask 1 (t.ex_flag >> 1));
  no_mem2 = omega (arith, bit_and_mask 1 t.ex_flag);
  width = omega arith;
}

module _ (code : ℕ) where
  memory-mov : {S : Type 0} (mmu : Mmu S) (c : Cpu) (s : S) → IsMov code c → memory mmu c s ≡ (c, s)
  unfolding memory memory_mov
  memory-mov mmu c s h = elim (Bool-cases (is_set c.temp_data_reg.irtype)) [
    | inl e ↦ rw (h.no_mem1, h.no_mem2, e) (rw (h.running, h.is_mov))
    | inr e ↦ rw e (rw (h.running, h.is_mov))
  ]

  writeback-mov : (c : Cpu) → IsMov code c → writeback c ≡ merge_dest_reg c code
  unfolding writeback
  writeback-mov c h =
      let no_store : (is_set c.temp_data_reg.irtype && false) ≡ false = ground arith in
      rw (h.no_mem1, h.width) (rw no_store (rw (h.running, h.is_mov)))

  -- What is moved from an immediate: code 3 shifts it into the high half.
  abbrev pub shifted : ℕ → ℕ
  shifted x = if code == 3 then x * 2 ^ 16 else x

  shifted_lem : (x : ℕ) → x < 2 ^ 16 → u32 (mux32 (flag (code == 3)) x (u32 (x << 16))) ≡ shifted x
  shifted_lem x h = ground (arith, mux32_if (code == 3) x (u32 (x << 16)))

  execute-mov_imm :
      (c : Cpu)
      → IsMov code c
      → c.temp_data_reg.irtype ≡ 0
      → c.temp_data_reg.val_c < 2 ^ 16
      → execute c ≡ set_val_c c (shifted c.temp_data_reg.val_c)
  unfolding execute exec_mov
  execute-mov_imm c h ty small =
      rw (h.no_mem1, h.no_mem2, h.width)
        (rw (h.running, h.is_mov, ty)
          (simp (through32_zero, through32_one, zero-bit_or)
            (rw (shifted_lem c.temp_data_reg.val_c small))))

  execute-mov_reg :
      (c : Cpu)
      → IsMov code c
      → c.temp_data_reg.irtype ≡ 1
      → c.temp_data_reg.val_b < 2 ^ 32
      → execute c ≡ set_val_c c c.temp_data_reg.val_b
  unfolding execute exec_mov
  execute-mov_reg c h ty small =
      let same : u32 c.temp_data_reg.val_b ≡ c.temp_data_reg.val_b = omega arith in
      rw (h.no_mem1, h.no_mem2, h.width)
        (rw (h.running, h.is_mov, ty)
          (simp (through32_zero, through32_one, zero-bit_or, bit_or-zero) (rw (same, same))))

module _ {S : Type 0} (mmu : Mmu S) (cpu : Cpu) (s s' : S) (n : length cpu.gen_regs ≡ 15) where
  -- A MOV whose execution leaves `v` in valC
  run_instruction-mov :
      (answer : MmuStatus) (t : TempData) (code r v : ℕ)
      → mmu.rd_mmu cpu.spe_regs cpu.pc 15 1 s ≡ (answer, s')
      → decode (access_check (fetch_data cpu answer)) ≡ record cpu { temp_data_reg = t }
      → execute (record cpu { temp_data_reg = t })
        ≡ record cpu { temp_data_reg = record t { val_c = v } }
      → IsMov code (record cpu { temp_data_reg = record t { val_c = v } })
      → t.dest_reg ≡ r
      → t.val_p ≡ u32 (cpu.pc + 4)
      → r < 15
      → code < 4
      → reg cpu r < 2 ^ 32
      → v < 2 ^ 32
      → (t' : TempData) × (run_instruction mmu cpu s
          ≡ some (
            record (next cpu r (moved code (reg cpu r) v) cpu.spe_regs.scr) { temp_data_reg = t' },
            s',
          ))
  run_instruction-mov answer t code r v fetched front exec h dest valp hr hc ha hv =
      let c4 : Cpu = record cpu { temp_data_reg = record t { val_c = v } } in
      let twice : u32 t.val_p ≡ u32 (cpu.pc + 4) = omega arith in
      (
        c4.temp_data_reg,
        run_instruction-register mmu cpu s s' answer (record cpu { temp_data_reg = t }) c4 code
              fetched front exec h.running (memory-mov code mmu c4 s' h) (writeback-mov code c4 h) n
              (rw dest hr) hc (rw dest ha) hv (rw h.is_mov) (rw h.is_mov) (rw h.is_mov)
            ∙ rw (twice, dest),
      )

  pub run_instruction-mov_imm :
      (code r imm : ℕ)
      → mmu.rd_mmu cpu.spe_regs cpu.pc 15 1 s
        ≡ (answer_of (word 0 icode_mov (mov_imm_rest r code (swap16 imm))), s')
      → code < 4
      → r < 15
      → imm < 2 ^ 16
      → reg cpu r < 2 ^ 32
      → (t : TempData) × (run_instruction mmu cpu s
          ≡ some (
            record (next cpu r (moved code (reg cpu r) (shifted code imm)) cpu.spe_regs.scr) {
              temp_data_reg = t;
            },
            s',
          ))
  run_instruction-mov_imm code r imm fetched hc hr hi ha =
      let small : shifted code imm < 2 ^ 32 = ground arith in
      let f = mov_imm_fields r code (swap16 imm) in
      let rest = mov_imm_rest r code (swap16 imm) in
      let t : TempData = record (decoded cpu 0 icode_mov rest f r) { val_c = imm } in
      let front =
        decode-word cpu 0 icode_mov rest f r (mov_imm-IsCut r code (swap16 imm) hr hc (omega arith))
          (get_dest_reg-mov r 0 hr) hr
        ∙ rw (get_idata-swap16 imm 0 hi) in
      let before : IsMov code (record cpu { temp_data_reg = t }) =
        IsMov-fields code cpu t refl refl refl hc in
      run_instruction-mov (answer_of (word 0 icode_mov rest)) t code r (shifted code imm) fetched
        front (execute-mov_imm code (record cpu { temp_data_reg = t }) before refl hi)
        (IsMov-fields code cpu (record t { val_c = shifted code imm }) refl refl refl hc) refl refl
        hr hc ha small

  pub run_instruction-mov_reg :
      (code r source : ℕ)
      → mmu.rd_mmu cpu.spe_regs cpu.pc 15 1 s
        ≡ (answer_of (word 1 icode_mov (mov_reg_rest r source code)), s')
      → code < 4
      → r < 15
      → source < 15
      → reg cpu r < 2 ^ 32
      → reg cpu source < 2 ^ 32
      → (t : TempData) × (run_instruction mmu cpu s
          ≡ some (
            record (next cpu r (moved code (reg cpu r) (reg cpu source)) cpu.spe_regs.scr) {
              temp_data_reg = t;
            },
            s',
          ))
  run_instruction-mov_reg code r source fetched hc hr hs ha hb =
      let f = mov_reg_fields r source code in
      let rest = mov_reg_rest r source code in
      let b = reg cpu source in
      let t : TempData = record (decoded cpu 1 icode_mov rest f r) { val_b = b } in
      let front =
        decode-word cpu 1 icode_mov rest f r (mov_reg-IsCut r source code hr hs hc)
          (get_dest_reg-mov r source hr) hr
        ∙ rw (get_reg_val-general cpu source hs) in
      let before : IsMov code (record cpu { temp_data_reg = t }) =
        IsMov-fields code cpu t refl refl refl hc in
      run_instruction-mov (answer_of (word 1 icode_mov rest)) t code r b fetched front
        (execute-mov_reg code (record cpu { temp_data_reg = t }) before refl hb)
        (IsMov-fields code cpu (record t { val_c = b }) refl refl refl hc) refl refl hr hc ha hb
