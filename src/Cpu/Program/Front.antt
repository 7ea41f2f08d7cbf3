-- ===== src/Cpu/Program/Front.antt =====
-- From the answer of a fetch to the decoded instruction: src/cpu_fetch.c, src/cpu_access_check.c and
-- src/cpu_decode.c on a word that none of them stops.
use wolf_cpuemulator.Common.{ℕ, ◌+◌, ◌%◌, ◌<◌, ◌^◌, ◌≡◌, arith, false, ltb, ◌==◌, u32, flag, wrap}
use wolf_cpuemulator.Logic.{through8}
use wolf_cpuemulator.Endian.{sep_int_for_4_bytes_b}
use wolf_cpuemulator.Endian.RoundTrip.{get_int-sep_int}
use wolf_cpuemulator.Cpu.State.{Cpu, TempData}
use wolf_cpuemulator.Cpu.Isa.{is_icode_invalid, is_privilege_instruction, icode_pop}
use wolf_cpuemulator.Cpu.Registers.{get_reg_val}
use wolf_cpuemulator.Cpu.Trap.{access_check}
use wolf_cpuemulator.Cpu.Fetch.{
  MmuStatus, fetch_data, check_icode, check_registers, reg_valid, get_ex_func, get_ex_cond,
  get_ex_flag, get_i_data, get_l_register_a, get_l_register_b,
}
use wolf_cpuemulator.Cpu.Decode.{decode, decode_registers, get_dest_reg, get_idata}
use wolf_cpuemulator.Cpu.Program.{word}
use wolf_cpuemulator.Cpu.Program.Word.{split_instruction-word}

-- The answer of the MMU that holds the word `w`
abbrev pub answer_of : ℕ → MmuStatus
answer_of w = record { stat = 0; bytes = sep_int_for_4_bytes_b w }

-- The fields that the pipeline's record has for a word
pub record Fields : Type 0 where
  pub reg1 : ℕ
  pub reg2 : ℕ
  pub ex_flag : ℕ
  pub ex_func : ℕ
  pub ex_cond : ℕ
  pub i_data : ℕ

-- What the getters read from a word, and that no check stops it
pub record IsCut (type icode rest : ℕ) (f : Fields) : Type 0 where
  pub flag_eq : get_ex_flag type icode rest ≡ f.ex_flag
  pub func_eq : wrap 4 (get_ex_func type icode rest) ≡ f.ex_func
  pub cond_eq : wrap 4 (get_ex_cond type icode rest) ≡ f.ex_cond
  pub reg1_eq : get_l_register_a icode rest f.ex_flag f.ex_cond ≡ f.reg1
  pub reg2_eq : get_l_register_b type icode rest ≡ f.reg2
  pub data_eq : get_i_data type icode rest ≡ f.i_data
  pub reg1_valid : f.reg1 < 16
  pub reg2_valid : f.reg2 < 16
  pub flag_short : f.ex_flag < 2 ^ 5
  pub type_short : type < 2
  pub icode_short : icode < 2 ^ 6
  pub rest_short : rest < 2 ^ 25
  pub valid : is_icode_invalid icode type ≡ false
  pub open_to_users : is_privilege_instruction icode ≡ false

module _ (cpu : Cpu) (type icode rest : ℕ) (f : Fields) where
  -- The pipeline's record once the word is cut, and once it is decoded
  abbrev pub cut : TempData
  cut = record (cpu.temp_data_reg) {
    ex_func = f.ex_func;
    ex_cond = f.ex_cond;
    ex_flag = f.ex_flag;
    irtype = type;
    icode = icode;
    reg1 = f.reg1;
    reg2 = f.reg2;
    val_c = f.i_data;
    val_p = u32 (cpu.pc + 4);
    instruction = word type icode rest;
    noexception = 1;
  }

  abbrev pub decoded : ℕ → TempData
  decoded dest = record cut {
    dest_reg = dest;
    dest_reg2 = wrap 5 (through8 (flag (icode == icode_pop)) f.reg2);
    val_a = get_reg_val cpu f.reg1;
    val_b = get_reg_val cpu f.reg2;
    val_c = get_idata icode f.i_data f.ex_cond;
  }

  fetch_data-cut :
      IsCut type icode rest f
      → fetch_data cpu (answer_of (word type icode rest)) ≡ record cpu { temp_data_reg = cut }
  unfolding fetch_data check_icode check_registers reg_valid
  fetch_data-cut h =
      let w = word type icode rest in
      let small : w < 2 ^ 32 = omega (arith, h.type_short, h.icode_short, h.rest_short) in
      let v1 : ltb 23 f.reg1 ≡ false = ground (arith, h.reg1_valid) in
      let v2 : ltb 23 f.reg2 ≡ false = ground (arith, h.reg2_valid) in
      rw
        (
          (get_int-sep_int w small).1,
          split_instruction-word type icode rest h.type_short h.icode_short h.rest_short cpu f.reg1
              f.reg2 f.ex_flag f.ex_func f.ex_cond f.i_data h.flag_eq h.func_eq h.cond_eq h.reg1_eq
              h.reg2_eq h.data_eq (omega (arith, h.reg1_valid)) (omega (arith, h.reg2_valid))
              h.flag_short,
        )
        (rw (h.valid, v1, v2))

  pub decode-word :
      (dest : ℕ)
      → IsCut type icode rest f
      → get_dest_reg icode f.reg1 f.reg2 ≡ dest
      → dest < 15
      → decode (access_check (fetch_data cpu (answer_of (word type icode rest))))
        ≡ record cpu { temp_data_reg = decoded dest }
  unfolding access_check decode decode_registers get_reg_val
  decode-word dest h e small =
      let not_pc : (dest == 15) ≡ false = ground arith in
      let short : dest % 2 ^ 5 ≡ dest = omega arith in
      rw (fetch_data-cut h) (rw h.open_to_users (rw (e, not_pc, short)))
