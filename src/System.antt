-- ===== src/System.antt =====
-- The whole machine: the cycles of `start_cpu` in src/cpu.c over the MMU, the caches, main memory and
-- the bus, from the state that `init_cpu` sets up. The devices are the threads behind the bus.
pub mod Loop
pub mod Bios
use wolf_cpuemulator.Common.{ℕ, ◌≡◌, some, none, Option, replicate}
use wolf_cpuemulator.Bus.{World}
use wolf_cpuemulator.Cpu.State.{Cpu, TempData, EcallRegisters, max_gen_register_count}
use wolf_cpuemulator.Cpu.Port.{Bus, BusSendData}
use wolf_cpuemulator.Cpu.Runs.{Runs}
use wolf_cpuemulator.MmuController.Access.{Machine, base_bios_addr}
use wolf_cpuemulator.MmuController.Kept.{IsSound}

abbrev zero_registers : EcallRegisters
zero_registers = record { mep = 0; mmode = 0; mreason = 0; mprevmode = 0; mpc = 0; eargs = 0 }

abbrev zero_temp : TempData
zero_temp = record {
  irtype = 0;
  icode = 0;
  dest_reg = 0;
  dest_reg2 = 0;
  reg1 = 0;
  reg2 = 0;
  val_a = 0;
  val_b = 0;
  val_c = 0;
  ex_cond = 0;
  ex_func = 0;
  ex_flag = 0;
  noexception = 0;
  val_p = 0;
  instruction = 0;
}

-- `init_cpu`: all is zero but the program counter.
unfoldable pub init_cpu : Cpu
init_cpu = record {
  pc = base_bios_addr;
  gen_regs = replicate max_gen_register_count 0;
  spe_regs = record { bcr = 0; scr = 0; flags = 0; pg_mode_base_addr_reg = 0 };
  ecall_regs = zero_registers;
  irq_regs = zero_registers;
  temp_data_reg = zero_temp;
  external_irq = 0;
}

module _ {D : Type 0} (bus : Bus (World D)) where
  -- The bus of the MMU's machine, as `irq_call` uses it
  send_data' : ℕ → BusSendData → Option (Machine D) → ℕ × Option (Machine D)
  send_data' addr data' none = (0, none)
  send_data' addr data' (some m) =
      let (status, world') = bus.send_data addr data' m.world in
      (status, some (record m { world = world' }))

  recv_data' : ℕ → BusSendData → Option (Machine D) → BusSendData × Option (Machine D)
  recv_data' addr data' none = (data', none)
  recv_data' addr data' (some m) =
      let (answer, world') = bus.recv_data addr data' m.world in
      (answer, some (record m { world = world' }))

  unfoldable pub machine_bus : Bus (Option (Machine D))
  unfolding send_data' recv_data'
  machine_bus = record { send_data = send_data'; recv_data = recv_data' }

  -- A machine that is defined has sound caches.
  abbrev pub SoundIfDefined : Option (Machine D) → Type 0
  SoundIfDefined none = Unit
  SoundIfDefined (some m) = IsSound m

  -- What the threads of the devices may do between two cycles: anything to the bus and the devices
  abbrev pub Acts : Option (Machine D) → Option (Machine D) → Type 0
  Acts none s = none ≡ s
  Acts (some m) s = (world : World D) × (some (record m { world = world }) ≡ s)
