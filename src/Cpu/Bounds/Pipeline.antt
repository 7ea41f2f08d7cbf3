-- ===== src/Cpu/Bounds/Pipeline.antt =====
-- `fetch_data`, `decode`, `execute` and `writeback` in a row: no access out of the register array.
use wolf_cpuemulator.Common.{ℕ, ◌<◌, ◌^◌, ◌≡◌, refl, arith, true, false, ◌⊎◌, inl, inr}
use wolf_cpuemulator.Common.{is_set, ◌==◌, ◌||◌, not, Bool-cases}
use wolf_cpuemulator.Endian.{Bytes4, get_int_from_4_bytes_b}
use wolf_cpuemulator.Cpu.State.{Cpu, TempData}
use wolf_cpuemulator.Cpu.Isa.{is_icode_invalid, cpu_reg_pc}
use wolf_cpuemulator.Cpu.Trap.{access_check, ecall}
use wolf_cpuemulator.Cpu.Fetch.{
  MmuStatus, fetch_data, split_instruction, check_icode, check_registers,
}
use wolf_cpuemulator.Cpu.Fetch.{reg_valid}
use wolf_cpuemulator.Cpu.Decode.{decode, decode_registers, get_dest_reg}
use wolf_cpuemulator.Cpu.Bounds.{IsSplit, split_instruction-IsSplit, in_bounds}
use wolf_cpuemulator.Cpu.Bounds.{accepted-in_bounds}

-- The pipeline's record is stopped, or its register numbers lie inside the array.
abbrev pub AreInBounds : TempData → Type 0
AreInBounds t = (t.noexception ≡ 0) ⊎ (in_bounds t.icode t.dest_reg t.dest_reg2 ≡ true)

decode_stopped : (c : Cpu) → c.temp_data_reg.noexception ≡ 0 → decode c ≡ c
unfolding decode
decode_stopped c h = rw h

-- Checks either stop the pipeline or leave the CPU as it is.
check_icode-cases :
    (c : Cpu)
    → ((check_icode c).temp_data_reg.noexception ≡ 0)
      ⊎ ((check_icode c ≡ c)
          × (is_icode_invalid c.temp_data_reg.icode c.temp_data_reg.irtype ≡ false))
unfolding check_icode
check_icode-cases c =
    elim (Bool-cases (is_icode_invalid c.temp_data_reg.icode c.temp_data_reg.irtype)) [
      | inl e ↦ inl (rw e)
      | inr e ↦ inr (rw e, e)
    ]

check_registers-cases :
    (c : Cpu)
    → let t = c.temp_data_reg in
      ((check_registers c).temp_data_reg.noexception ≡ 0)
      ⊎ ((check_registers c ≡ c) × (reg_valid t.reg1 ≡ true) × (reg_valid t.reg2 ≡ true))
unfolding check_registers
check_registers-cases c =
    let t = c.temp_data_reg in
    elim (Bool-cases (not (reg_valid t.reg1) || not (reg_valid t.reg2))) [
      | inl e ↦ inl (rw e)
      | inr e ↦ inr (rw e, ground arith, ground arith)
    ]

decode-cases :
    (c : Cpu)
    → let t = c.temp_data_reg in
      ((decode c).temp_data_reg.noexception ≡ 0)
      ⊎ ((decode c ≡ decode_registers c (get_dest_reg t.icode t.reg1 t.reg2))
          × ((get_dest_reg t.icode t.reg1 t.reg2 == cpu_reg_pc) ≡ false))
unfolding decode
decode-cases c =
    let t = c.temp_data_reg in
    elim (Bool-cases (is_set t.noexception)) [
      | inr e ↦ inl (rw e (ground arith))
      | inl e ↦ elim (Bool-cases (get_dest_reg t.icode t.reg1 t.reg2 == cpu_reg_pc)) [
        | inl d ↦ inl (rw (e, d))
        | inr d ↦ inr (rw (e, d), d)
      ]
    ]

get_int_b-lt : (a : Bytes4) → get_int_from_4_bytes_b a < 2 ^ 32
unfolding get_int_from_4_bytes_b
get_int_b-lt a = omega arith

-- A stopped pipeline stays stopped.
check_registers_stopped :
    (c : Cpu) → c.temp_data_reg.noexception ≡ 0 → (check_registers c).temp_data_reg.noexception ≡ 0
check_registers_stopped c h = elim (check_registers-cases c) [ inl e ↦ e | inr e ↦ rw e.0 h ]

-- What fetching leaves: a stopped record, or one that passed the two checks.
abbrev IsFetched : TempData → Type 0
IsFetched t =
    (t.noexception ≡ 0)
    ⊎ (IsSplit t
        × (is_icode_invalid t.icode t.irtype ≡ false)
        × (reg_valid t.reg1 ≡ true)
        × (reg_valid t.reg2 ≡ true))

checked-IsFetched :
    (c : Cpu) → IsSplit c.temp_data_reg → IsFetched (check_registers (check_icode c)).temp_data_reg
checked-IsFetched c s = elim (check_icode-cases c) [
  | inl e ↦ inl (check_registers_stopped (check_icode c) e)
  | inr e ↦
      rw e.0
        (elim (check_registers-cases c) [ inl f ↦ inl f | inr f ↦ rw f.0 (inr (s, e.1, f.1, f.2)) ])
]

pub fetch_data-IsFetched :
    (c : Cpu) (answer : MmuStatus) → IsFetched (fetch_data c answer).temp_data_reg
unfolding fetch_data
fetch_data-IsFetched c answer = elim (Bool-cases (is_set answer.stat)) [
  | inl e ↦ rw e (inl refl)
  | inr e ↦
      let w : ℕ = get_int_from_4_bytes_b answer.bytes in
      rw e (
        checked-IsFetched (split_instruction c w)
          (split_instruction-IsSplit c w (get_int_b-lt answer.bytes)))
]

-- The stages up to `decode` do not touch the general registers.
pub fetch_data-gen_regs :
    (c : Cpu) (answer : MmuStatus) → (fetch_data c answer).gen_regs ≡ c.gen_regs
unfolding fetch_data check_icode check_registers split_instruction ecall
fetch_data-gen_regs c answer = ground arith

pub access_check-keeps :
    (c : Cpu)
    → ((access_check c).temp_data_reg ≡ c.temp_data_reg) × ((access_check c).gen_regs ≡ c.gen_regs)
unfolding access_check ecall
access_check-keeps c = ground arith

pub decode-gen_regs : (c : Cpu) → (decode c).gen_regs ≡ c.gen_regs
unfolding decode decode_registers ecall
decode-gen_regs c = ground arith

-- Decoding a fetched record leaves register numbers inside the array, or a stopped record.
pub decode-AreInBounds :
    (c : Cpu) → IsFetched c.temp_data_reg → AreInBounds (decode c).temp_data_reg
unfolding decode_registers
decode-AreInBounds c (inl h) = inl (rw (decode_stopped c h) h)
decode-AreInBounds c (inr h) = elim (decode-cases c) [
  | inl g ↦ inl g
  | inr g ↦ rw g.0 (inr (accepted-in_bounds c.temp_data_reg h.0 (rw (h.1, h.2, h.3, g.1) refl)))
]
