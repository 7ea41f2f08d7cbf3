-- ===== src/Cpu/State.antt =====
-- The state of include/cpu.h and include/register.h. A bit-field's width is kept by the code that
-- stores into it. The controllers that the C record points to are records of their own.
use wolf_cpuemulator.Common.{ℕ, List, Bool, not, is_set, ◌>>◌, ◌&&&◌}

-- CPU_Special_Registers
pub record SpecialRegisters : Type 0 where
  pub bcr : ℕ
  pub scr : ℕ
  pub flags : ℕ
  pub pg_mode_base_addr_reg : ℕ

-- CPU_Ecall_Registers
pub record EcallRegisters : Type 0 where
  pub mep : ℕ
  pub mmode : ℕ
  pub mreason : ℕ
  pub mprevmode : ℕ
  pub mpc : ℕ
  pub eargs : ℕ

-- WCPUTempData; its field `valC_Extended` is never used.
pub record TempData : Type 0 where
  pub irtype : ℕ
  pub icode : ℕ
  pub dest_reg : ℕ
  pub dest_reg2 : ℕ
  pub reg1 : ℕ
  pub reg2 : ℕ
  pub val_a : ℕ
  pub val_b : ℕ
  pub val_c : ℕ
  pub ex_cond : ℕ
  pub ex_func : ℕ
  pub ex_flag : ℕ
  pub noexception : ℕ
  pub val_p : ℕ
  pub instruction : ℕ

-- WOLF_CPU, with `external_irq` of its ecall controller
pub record Cpu : Type 0 where
  pub pc : ℕ
  pub gen_regs : List ℕ
  pub spe_regs : SpecialRegisters
  pub ecall_regs : EcallRegisters
  pub irq_regs : EcallRegisters
  pub temp_data_reg : TempData
  pub external_irq : ℕ

-- IS_IN_KERN_MODE, IS_PGO_ON and IS_IRQ_ALLOW
abbrev pub is_in_kern_mode : ℕ → Bool
is_in_kern_mode bcr = not (is_set (bcr >> 0 &&& 1))

abbrev pub is_pgo_on : ℕ → Bool
is_pgo_on bcr = is_set (bcr >> 2 &&& 1)

abbrev pub is_irq_allow : ℕ → Bool
is_irq_allow bcr = not (is_set (bcr >> 4 &&& 1))

abbrev pub max_gen_register_count : ℕ
max_gen_register_count = 15
