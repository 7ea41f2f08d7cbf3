-- ===== src/Cpu/Bounds.antt =====
-- The register numbers that reach src/cpu_wb.c, by tables over all instructions.
pub mod Pipeline
pub mod Execute
pub mod Front
pub mod Instruction
use wolf_cpuemulator.Common.{
  ℕ, ◌+◌, ◌*◌, ◌/◌, ◌%◌, ◌^◌, ◌<◌, ◌≡◌, ◌≢◌, refl, arith, Bool, true, false,
}
use wolf_cpuemulator.Common.{◌==◌, ==_iff, ◌||◌, ◌&&◌, not, flag, is_set, if◌then◌else◌, ltb, u8}
use wolf_cpuemulator.Common.{length, Option, some, none, ◌⊎◌, inl, inr, ◌|||◌, ◌>>◌, ◌&&&◌}
use wolf_cpuemulator.Common.{all_below, all_below₅_sound, wrap, neg}
use wolf_cpuemulator.Common.Bits.{bit_and_mask, bit_and-le, bit_or-lt}
use wolf_cpuemulator.Logic.{through8}
use wolf_cpuemulator.Cpu.State.{Cpu, TempData}
use wolf_cpuemulator.Cpu.Fetch.{reg_valid, split_instruction, get_ex_flag, get_ex_cond}
use wolf_cpuemulator.Cpu.Fetch.Registers.{register_a, register_b, field_a, field_b}
use wolf_cpuemulator.Cpu.Fetch.Registers.{get_l_register_a_lem, get_l_register_b_lem}
use wolf_cpuemulator.Cpu.Decode.{get_dest_reg}
use wolf_cpuemulator.Cpu.Writeback.{is_val_b_write}
use wolf_cpuemulator.Cpu.Isa.{icode_mov, icode_alu, icode_mlmr, icode_push, icode_pop, icode_popf}
use wolf_cpuemulator.Cpu.Isa.{icode_rere, icode_ecall, icode_ocall, icode_pushf, icode_zwc}
use wolf_cpuemulator.Cpu.Isa.{icode_ret, icode_rearg, cpu_reg_pc, is_icode_invalid}

-- What `writeback` indexes for an instruction code.
unfoldable pub in_bounds : ℕ → ℕ → ℕ → Bool
unfolding is_val_b_write
in_bounds icode dest_reg dest_reg2 =
    if icode == icode_mov || icode == icode_mlmr || icode == icode_alu || is_val_b_write icode
    then ltb dest_reg 15
    else if icode == icode_popf || icode == icode_pop
    then ltb dest_reg 15 && ltb dest_reg2 15
    else true

implies : Bool → Bool → Bool
implies a b = not a || b

implies-elim : (a b : Bool) → implies a b ≡ true → a ≡ true → b ≡ true
unfolding implies
implies-elim a b h k = ground arith

-- An instruction that passes the three checks of fetching and decoding.
abbrev accepted : ℕ → ℕ → ℕ → ℕ → Bool
accepted type icode r1 r2 =
    not (is_icode_invalid icode type)
    && (reg_valid r1 && (reg_valid r2 && not (get_dest_reg icode r1 r2 == cpu_reg_pc)))

abbrev goes_in_bounds : ℕ → ℕ → ℕ → ℕ → ℕ → Bool
goes_in_bounds type icode a b k =
    let r1 = register_a icode a k in
    let r2 = register_b type icode a b in
    implies (accepted type icode r1 r2) (
      in_bounds icode (wrap 5 (get_dest_reg icode r1 r2))
        (wrap 5 (through8 (flag (icode == icode_pop)) r2)))

bounds_table :
    all_below 2 (λ type. all_below 64 (λ icode.
      all_below 16 (λ a. all_below 16 (λ b. all_below 4 (λ k. goes_in_bounds type icode a b k)))))
    ≡ true
unfolding all_below implies is_icode_invalid reg_valid get_dest_reg through8 in_bounds register_a
    register_b
bounds_table = refl

registers_table :
    all_below 2 (λ type. all_below 64 (λ icode. all_below 16 (λ a. all_below 16 (λ b.
      all_below 4 (λ k. ltb (register_a icode a k) 32 && ltb (register_b type icode a b) 32)))))
    ≡ true
unfolding all_below register_a register_b
registers_table = refl

-- What a split instruction holds: register numbers of the tables.
pub record IsSplit (t : TempData) : Type 0 where
  pub a : ℕ
  pub b : ℕ
  pub k : ℕ
  pub a_lt : a < 16
  pub b_lt : b < 16
  pub k_lt : k < 4
  pub type_lt : t.irtype < 2
  pub icode_lt : t.icode < 64
  pub reg1_eq : t.reg1 ≡ register_a t.icode a k
  pub reg2_eq : t.reg2 ≡ register_b t.irtype t.icode a b

split_registers-lt :
    (type icode a b k : ℕ)
    → type < 2
    → icode < 64
    → a < 16
    → b < 16
    → k < 4
    → (register_a icode a k < 32) × (register_b type icode a b < 32)
split_registers-lt type icode a b k ht hi ha hb hk = ground (
  arith,
  all_below₅_sound 2 64 16 16 4
      (λ (t : ℕ) (i : ℕ) (a : ℕ) (b : ℕ) (k : ℕ).
        ltb (register_a i a k) 32 && ltb (register_b t i a b) 32)
      type icode a b k registers_table ht hi ha hb hk,
)

through8-lt : (c v n : ℕ) → v < n → n < 257 → through8 c v < n
unfolding through8
through8-lt c v n h k = omega (arith, bit_and-le (neg 8 (u8 c)) (u8 v))

flags_part : (c x : ℕ) → through8 c (x &&& 0b11111) < 2 ^ 5
flags_part c x =
    through8-lt c (x &&& 0b11111) (2 ^ 5) (omega (arith, bit_and_mask 5 x)) (omega arith)

get_ex_flag-lt : (type icode w : ℕ) → get_ex_flag type icode w < 2 ^ 5
unfolding get_ex_flag
get_ex_flag-lt type icode w =
    bit_or-lt 5 _ _
      (through8-lt _ _ (2 ^ 5)
        (bit_or-lt 5 _ _ (bit_or-lt 5 _ _ (flags_part _ _) (flags_part _ _)) (flags_part _ _))
        (omega arith))
      (through8-lt _ _ (2 ^ 5) (bit_or-lt 5 _ _ (flags_part _ _) (flags_part _ _)) (omega arith))

split_instruction-IsSplit :
    (cpu : Cpu) (w : ℕ) → w < 2 ^ 32 → IsSplit (split_instruction cpu w).temp_data_reg
unfolding split_instruction
split_instruction-IsSplit cpu w h =
    let type : ℕ = w >> 31 in
    let icode : ℕ = w >> 25 &&& 0b0111111 in
    let word : ℕ = w &&& 0x01ffffff in
    let flags : ℕ = get_ex_flag type icode word in
    let flags_lt : flags < 32 = get_ex_flag-lt type icode word in
    let icode_lt : icode < 64 = omega (arith, bit_and_mask 6 (w >> 25)) in
    let cond : ℕ = wrap 4 (get_ex_cond type icode word) in
    let type_eq : wrap 1 type ≡ type = omega arith in
    let icode_eq : wrap 6 icode ≡ icode = omega arith in
    let small =
      split_registers-lt type icode (field_a word) (field_b word) (flags / 8) (omega arith) icode_lt
        (omega arith) (omega arith) (omega arith) in
    record {
      a = field_a word;
      b = field_b word;
      k = flags / 8;
      a_lt = omega arith;
      b_lt = omega arith;
      k_lt = omega arith;
      type_lt = omega arith;
      icode_lt = omega arith;
      reg1_eq =
          rw (icode_eq, get_l_register_a_lem icode word flags cond icode_lt flags_lt (omega arith))
            (omega arith);
      reg2_eq =
          rw (icode_eq, type_eq, get_l_register_b_lem type icode word (omega arith) icode_lt)
            (omega arith);
    }

accepted-in_bounds :
    (t : TempData)
    → IsSplit t
    → accepted t.irtype t.icode t.reg1 t.reg2 ≡ true
    → in_bounds t.icode
        (wrap 5 (get_dest_reg t.icode t.reg1 t.reg2))
        (wrap 5 (through8 (flag (t.icode == icode_pop)) t.reg2))
      ≡ true
accepted-in_bounds t s h =
    rw (s.reg1_eq, s.reg2_eq)
      (implies-elim _ _
        (all_below₅_sound 2 64 16 16 4 goes_in_bounds t.irtype t.icode s.a s.b s.k bounds_table
          s.type_lt s.icode_lt s.a_lt s.b_lt s.k_lt)
        (rw (s.reg1_eq, s.reg2_eq) at h))
