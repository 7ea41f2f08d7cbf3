-- ===== src/Tests/Data.antt =====
-- States that the examples start from.
use wolf_cpuemulator.Common.{ℕ, replicate}
use wolf_cpuemulator.Endian.{Bytes4}
use wolf_cpuemulator.Cpu.State.{Cpu, TempData}
use wolf_cpuemulator.Cpu.Fetch.{MmuStatus}
use wolf_cpuemulator.Cpu.Isa.{icode_alu}

-- An instruction in flight with the given code, type, function, extra field and operands.
abbrev pub in_flight : ℕ → ℕ → ℕ → ℕ → ℕ → ℕ → TempData
in_flight icode irtype ex_func ex_flag val_a val_c = record {
  irtype = irtype;
  icode = icode;
  dest_reg = 2;
  dest_reg2 = 0;
  reg1 = 1;
  reg2 = 2;
  val_a = val_a;
  val_b = 0;
  val_c = val_c;
  ex_cond = 0;
  ex_func = ex_func;
  ex_flag = ex_flag;
  noexception = 1;
  val_p = 0x2004;
  instruction = 0;
}

abbrev pub cpu_with : TempData → ℕ → Cpu
cpu_with t bcr = record {
  pc = 0x2000;
  gen_regs = replicate 15 7;
  spe_regs = record { bcr = bcr; scr = 0; flags = 0; pg_mode_base_addr_reg = 0 };
  ecall_regs = record { mep = 0; mmode = 0; mreason = 0; mprevmode = 0; mpc = 0x8000; eargs = 0 };
  irq_regs = record { mep = 0; mmode = 0; mreason = 0; mprevmode = 0; mpc = 0x9000; eargs = 0 };
  temp_data_reg = t;
  external_irq = 0;
}

-- SUB of 2 ^ 31 from 3, the difference of which overflows.
abbrev pub sub_cpu : Cpu
sub_cpu = cpu_with (in_flight icode_alu 1 6 4 3 0x80000000) 0

-- The answer of a successful fetch of the word 0x02440123, MOV with an immediate.
abbrev pub fetched : MmuStatus
fetched = record { stat = 0; bytes = record { b0 = 0x02; b1 = 0x44; b2 = 0x01; b3 = 0x23 } }

abbrev pub four_bytes : Bytes4
four_bytes = record { b0 = 0x11; b1 = 0x22; b2 = 0x33; b3 = 0x44 }
