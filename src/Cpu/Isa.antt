-- ===== src/Cpu/Isa.antt =====
-- The numbers of include/cpu.h and include/controllers/ecall.h: registers, instruction codes,
-- conditions and reasons.
use wolf_cpuemulator.Common.{ℕ, Bool, ◌==◌, ◌!=◌, ◌&&◌, ◌||◌, not, is_set, ◌>>◌, bit_xor}

abbrev pub cpu_reg_pc : ℕ
cpu_reg_pc = 15

abbrev pub cpu_reg_spe_bcr : ℕ
cpu_reg_spe_bcr = 16

abbrev pub cpu_reg_spe_scr : ℕ
cpu_reg_spe_scr = 17

abbrev pub cpu_reg_spe_flags : ℕ
cpu_reg_spe_flags = 18

abbrev pub cpu_reg_spe_pgbase : ℕ
cpu_reg_spe_pgbase = 19

abbrev pub cpu_reg_ecall_ecbase : ℕ
cpu_reg_ecall_ecbase = 20

abbrev pub cpu_reg_ecall_icbase : ℕ
cpu_reg_ecall_icbase = 21

abbrev pub cpu_reg_ecall_reason : ℕ
cpu_reg_ecall_reason = 22

abbrev pub cpu_reg_irq_reason : ℕ
cpu_reg_irq_reason = 23

abbrev pub cpu_reg_ecall_earg : ℕ
cpu_reg_ecall_earg = 24

abbrev pub cpu_reg_rsp : ℕ
cpu_reg_rsp = 14

abbrev icode_nop : ℕ
icode_nop = 0

abbrev pub icode_mov : ℕ
icode_mov = 1

abbrev pub icode_alu : ℕ
icode_alu = 2

abbrev pub icode_mlmr : ℕ
icode_mlmr = 3

abbrev pub icode_push : ℕ
icode_push = 4

abbrev pub icode_pop : ℕ
icode_pop = 5

abbrev pub icode_pushf : ℕ
icode_pushf = 7

abbrev pub icode_popf : ℕ
icode_popf = 8

abbrev pub icode_zwc : ℕ
icode_zwc = 6

abbrev pub icode_jmp : ℕ
icode_jmp = 32

abbrev pub icode_ocall : ℕ
icode_ocall = 35

abbrev pub icode_ecall : ℕ
icode_ecall = 34

abbrev pub icode_ret : ℕ
icode_ret = 36

abbrev pub icode_rere : ℕ
icode_rere = 56

abbrev pub icode_rbcr : ℕ
icode_rbcr = 48

abbrev pub icode_lbcr : ℕ
icode_lbcr = 49

abbrev pub icode_lpgr : ℕ
icode_lpgr = 50

abbrev pub icode_lepv : ℕ
icode_lepv = 51

abbrev pub icode_lipv : ℕ
icode_lipv = 52

abbrev pub icode_libr : ℕ
icode_libr = 53

abbrev pub icode_lebr : ℕ
icode_lebr = 54

abbrev pub icode_hlt : ℕ
icode_hlt = 55

abbrev pub icode_rearg : ℕ
icode_rearg = 57

abbrev pub icode_ret_exfunc : ℕ
icode_ret_exfunc = 1

abbrev pub icode_iret_exfunc : ℕ
icode_iret_exfunc = 16

abbrev pub icode_eret_exfunc : ℕ
icode_eret_exfunc = 17

abbrev pub alu_fun_code_add : ℕ
alu_fun_code_add = 0

abbrev alu_fun_code_mul : ℕ
alu_fun_code_mul = 1

abbrev pub alu_fun_code_and : ℕ
alu_fun_code_and = 2

abbrev pub alu_fun_code_or : ℕ
alu_fun_code_or = 3

abbrev pub alu_fun_code_xor : ℕ
alu_fun_code_xor = 4

abbrev pub alu_fun_code_neg : ℕ
alu_fun_code_neg = 5

abbrev pub alu_fun_code_sub : ℕ
alu_fun_code_sub = 6

abbrev alu_fun_code_div : ℕ
alu_fun_code_div = 7

abbrev pub alu_fun_code_not : ℕ
alu_fun_code_not = 8

abbrev pub jmp_excond_jmp : ℕ
jmp_excond_jmp = 0

abbrev pub jmp_excond_eq : ℕ
jmp_excond_eq = 1

abbrev pub jmp_excond_g : ℕ
jmp_excond_g = 2

abbrev pub jmp_excond_s : ℕ
jmp_excond_s = 3

abbrev pub jmp_excond_a : ℕ
jmp_excond_a = 4

abbrev pub jmp_excond_b : ℕ
jmp_excond_b = 5

abbrev pub jmp_excond_ne : ℕ
jmp_excond_ne = 6

abbrev pub ereason_unrecognized_reg : ℕ
ereason_unrecognized_reg = 0

abbrev pub ereason_unsupported_alu_func : ℕ
ereason_unsupported_alu_func = 1

abbrev pub ereason_unsupported_icode : ℕ
ereason_unsupported_icode = 2

abbrev pub ereason_instruction_access_denied : ℕ
ereason_instruction_access_denied = 3

abbrev pub ereason_software_calling : ℕ
ereason_software_calling = 4

abbrev pub ecall_machine_problem : ℕ
ecall_machine_problem = 1

-- IS_ITYPE and IS_RTYPE: the type bit is 1 for R instructions.
abbrev pub is_itype : ℕ → ℕ
is_itype val = bit_xor val 1

abbrev pub is_rtype : ℕ → ℕ
is_rtype val = val

abbrev pub is_privilege_instruction : ℕ → Bool
is_privilege_instruction icode = icode >> 4 == 3

unfoldable pub is_icode_invalid : ℕ → ℕ → Bool
is_icode_invalid icode type =
    (icode != icode_alu
      && icode != icode_ecall
      && icode != icode_jmp
      && icode != icode_lebr
      && icode != icode_libr
      && icode != icode_lpgr
      && icode != icode_lbcr
      && icode != icode_mlmr
      && icode != icode_mov
      && icode != icode_ocall
      && icode != icode_ret
      && icode != icode_rbcr
      && icode != icode_rere
      && icode != icode_lepv
      && icode != icode_lipv
      && icode != icode_zwc
      && icode != icode_push
      && icode != icode_pop
      && icode != icode_nop
      && icode != icode_rearg)
    || ((icode == icode_push
          || icode == icode_pop
          || icode == icode_zwc
          || icode == icode_ret
          || icode == icode_rere
          || icode == icode_rearg
          || is_privilege_instruction icode)
        && not (is_set (is_rtype type)))
    || ((icode == icode_ecall || icode == icode_ocall || icode == icode_jmp)
        && not (is_set (is_itype type)))
