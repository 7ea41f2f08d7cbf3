-- ===== src/Cpu/Program/Word.antt =====
-- An instruction word and the fields that src/cpu_fetch.c cuts out of it.
use wolf_cpuemulator.Common.{ℕ, ◌+◌, ◌%◌, ◌^◌, ◌<◌, ◌≡◌, arith, ◌>>◌, ◌&&&◌, u32}
use wolf_cpuemulator.Common.Bits.{bit_and_mask}
use wolf_cpuemulator.Cpu.State.{Cpu}
use wolf_cpuemulator.Cpu.Program.{word}
use wolf_cpuemulator.Cpu.Fetch.{
  split_instruction, get_ex_func, get_ex_cond, get_ex_flag, get_i_data, get_l_register_a,
  get_l_register_b,
}

module _ (type icode rest : ℕ) (ht : type < 2) (hi : icode < 2 ^ 6) (hr : rest < 2 ^ 25) where
  type_of : word type icode rest >> 31 ≡ type
  type_of = omega arith

  icode_of : (word type icode rest >> 25 &&& 0b0111111) ≡ icode
  icode_of = omega (arith, bit_and_mask 6 (word type icode rest >> 25))

  rest_of : (word type icode rest &&& 0x01ffffff) ≡ rest
  rest_of = omega (arith, bit_and_mask 25 (word type icode rest))

  pub split_instruction-word :
      (cpu : Cpu) (reg1 reg2 ex_flag ex_func ex_cond i_data : ℕ)
      → get_ex_flag type icode rest ≡ ex_flag
      → get_ex_func type icode rest % 2 ^ 4 ≡ ex_func
      → get_ex_cond type icode rest % 2 ^ 4 ≡ ex_cond
      → get_l_register_a icode rest ex_flag ex_cond ≡ reg1
      → get_l_register_b type icode rest ≡ reg2
      → get_i_data type icode rest ≡ i_data
      → reg1 < 2 ^ 5
      → reg2 < 2 ^ 5
      → ex_flag < 2 ^ 5
      → split_instruction cpu (word type icode rest) ≡ record cpu {
        temp_data_reg = record (cpu.temp_data_reg) {
          ex_func = ex_func;
          ex_cond = ex_cond;
          ex_flag = ex_flag;
          irtype = type;
          icode = icode;
          reg1 = reg1;
          reg2 = reg2;
          val_c = i_data;
          val_p = u32 (cpu.pc + 4);
          instruction = word type icode rest;
          noexception = 1;
        };
      }
  unfolding split_instruction
  split_instruction-word cpu reg1 reg2 ex_flag ex_func ex_cond i_data ef eu ec ea eb ei ha hb hf =
      let t1 : type % 2 ^ 1 ≡ type = omega arith in
      let t2 : icode % 2 ^ 6 ≡ icode = omega arith in
      let t3 : reg1 % 2 ^ 5 ≡ reg1 = omega arith in
      let t4 : reg2 % 2 ^ 5 ≡ reg2 = omega arith in
      let t5 : ex_flag % 2 ^ 5 ≡ ex_flag = omega arith in
      rw (type_of, icode_of, rest_of) (rw (ef, eu, ec, ea, eb, ei) (rw (t1, t2, t3, t4, t5)))
