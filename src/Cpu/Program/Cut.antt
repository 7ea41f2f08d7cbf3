-- ===== src/Cpu/Program/Cut.antt =====
-- What src/cpu_fetch.c cuts out of the words of MOV, JMP and the ALU's instructions.
use wolf_cpuemulator.Common.{ℕ, ◌+◌, ◌*◌, ◌<◌, ◌^◌, ◌≡◌, refl, arith, ◌>>◌}
use wolf_cpuemulator.Common.Bits.{zero-bit_or, bit_or-zero, bit_and_mask}
use wolf_cpuemulator.Logic.Select.{through8_zero, through8_one, through32_zero, through32_one}
use wolf_cpuemulator.Cpu.Isa.{icode_alu, icode_mov, icode_jmp, is_icode_invalid}
use wolf_cpuemulator.Cpu.Fetch.{
  get_ex_func, get_ex_cond, get_ex_flag, get_i_data, get_l_register_a, get_l_register_b,
}
use wolf_cpuemulator.Cpu.Program.Front.{Fields, IsCut}

ruleset selectors =
    (through8_zero, through8_one, through32_zero, through32_one, zero-bit_or, bit_or-zero)

module _ (r f x imm : ℕ) where
  abbrev pub alu_rest : ℕ
  alu_rest = r * 2 ^ 21 + f * 2 ^ 17 + x * 2 ^ 12 + imm

  abbrev pub alu_fields : Fields
  alu_fields = record { reg1 = r; reg2 = 0; ex_flag = x; ex_func = f; ex_cond = 0; i_data = imm }

  pub alu-IsCut : r < 15 → f < 16 → x < 32 → imm < 2 ^ 12 → IsCut 0 icode_alu alu_rest alu_fields
  unfolding get_i_data get_ex_flag get_ex_func get_ex_cond get_l_register_a get_l_register_b
      is_icode_invalid
  alu-IsCut hr hf hx hi = record {
    flag_eq = simp selectors (omega (arith, bit_and_mask 5 (alu_rest >> 12)));
    func_eq = simp selectors (omega (arith, bit_and_mask 4 (alu_rest >> 17)));
    cond_eq = simp selectors;
    reg1_eq = simp selectors (omega (arith, bit_and_mask 4 (alu_rest >> 21)));
    reg2_eq = simp selectors;
    data_eq = simp selectors (omega (arith, bit_and_mask 12 alu_rest));
    reg1_valid = omega arith;
    reg2_valid = omega arith;
    flag_short = hx;
    type_short = omega arith;
    icode_short = omega arith;
    rest_short = omega arith;
    valid = refl;
    open_to_users = refl;
  }

module _ (r code imm : ℕ) where
  abbrev pub mov_imm_rest : ℕ
  mov_imm_rest = r * 2 ^ 21 + code * 2 ^ 19 + imm

  abbrev pub mov_imm_fields : Fields
  mov_imm_fields = record {
    reg1 = r;
    reg2 = 0;
    ex_flag = code * 8;
    ex_func = 0;
    ex_cond = 0;
    i_data = imm;
  }

  pub mov_imm-IsCut :
      r < 15 → code < 4 → imm < 2 ^ 16 → IsCut 0 icode_mov mov_imm_rest mov_imm_fields
  unfolding get_i_data get_ex_flag get_ex_func get_ex_cond get_l_register_a get_l_register_b
      is_icode_invalid
  mov_imm-IsCut hr hc hi = record {
    flag_eq = simp selectors (omega (arith, bit_and_mask 5 (mov_imm_rest >> 16)));
    func_eq = simp selectors;
    cond_eq = simp selectors;
    reg1_eq = simp selectors (omega (arith, bit_and_mask 4 (mov_imm_rest >> 21)));
    reg2_eq = simp selectors;
    data_eq = simp selectors (omega (arith, bit_and_mask 16 mov_imm_rest));
    reg1_valid = omega arith;
    reg2_valid = omega arith;
    flag_short = omega arith;
    type_short = omega arith;
    icode_short = omega arith;
    rest_short = omega arith;
    valid = refl;
    open_to_users = refl;
  }

module _ (r source code : ℕ) where
  abbrev pub mov_reg_rest : ℕ
  mov_reg_rest = r * 2 ^ 21 + source * 2 ^ 17 + code * 2 ^ 15

  abbrev pub mov_reg_fields : Fields
  mov_reg_fields = record {
    reg1 = r;
    reg2 = source;
    ex_flag = code * 8;
    ex_func = 0;
    ex_cond = 0;
    i_data = 0;
  }

  pub mov_reg-IsCut :
      r < 15 → source < 15 → code < 4 → IsCut 1 icode_mov mov_reg_rest mov_reg_fields
  unfolding get_i_data get_ex_flag get_ex_func get_ex_cond get_l_register_a get_l_register_b
      is_icode_invalid
  mov_reg-IsCut hr hs hc = record {
    flag_eq = simp selectors (omega (arith, bit_and_mask 5 (mov_reg_rest >> 12)));
    func_eq = simp selectors;
    cond_eq = simp selectors;
    reg1_eq = simp selectors (omega (arith, bit_and_mask 4 (mov_reg_rest >> 21)));
    reg2_eq = simp selectors (omega (arith, bit_and_mask 4 (mov_reg_rest >> 17)));
    data_eq = simp selectors;
    reg1_valid = omega arith;
    reg2_valid = omega arith;
    flag_short = omega arith;
    type_short = omega arith;
    icode_short = omega arith;
    rest_short = omega arith;
    valid = refl;
    open_to_users = refl;
  }

module _ (cond imm : ℕ) where
  abbrev pub jmp_rest : ℕ
  jmp_rest = cond * 2 ^ 16 + imm

  abbrev pub jmp_fields : Fields
  jmp_fields = record {
    reg1 = 15;
    reg2 = 0;
    ex_flag = 0;
    ex_func = 0;
    ex_cond = cond;
    i_data = imm;
  }

  pub jmp-IsCut : cond < 16 → imm < 2 ^ 16 → IsCut 0 icode_jmp jmp_rest jmp_fields
  unfolding get_i_data get_ex_flag get_ex_func get_ex_cond get_l_register_a get_l_register_b
      is_icode_invalid
  jmp-IsCut hc hi = record {
    flag_eq = simp selectors;
    func_eq = simp selectors;
    cond_eq = simp selectors (omega (arith, bit_and_mask 5 (jmp_rest >> 16)));
    reg1_eq = let low : cond >> 4 ≡ 0 = omega arith in rw low (simp selectors);
    reg2_eq = simp selectors;
    data_eq = simp selectors (omega (arith, bit_and_mask 16 jmp_rest));
    reg1_valid = omega arith;
    reg2_valid = omega arith;
    flag_short = omega arith;
    type_short = omega arith;
    icode_short = omega arith;
    rest_short = omega arith;
    valid = refl;
    open_to_users = refl;
  }
