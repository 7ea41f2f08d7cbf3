-- ===== src/System/Loop.antt =====
-- `init_env` and the loop of `start_cpu` in src/cpu.c: the debugger's wait, a cycle and the count of the
-- cycles. The clock's lock is left out.
use wolf_cpuemulator.Common.{ℕ, zero, suc, ◌+◌, Option, some, List, u64}
use wolf_cpuemulator.Common.Partial.{◌>>=◌}
use wolf_cpuemulator.Cpu.State.{Cpu}
use wolf_cpuemulator.Cpu.Port.{Mmu, Bus}
use wolf_cpuemulator.Cpu.Cycle.{cycle}
use wolf_cpuemulator.Commands.{CmdParserManager}
use wolf_cpuemulator.Commands.Boot.{CmdConfigurations, load_bios}
use wolf_cpuemulator.Debugger.{
  BreakpointController, break_execution, init_break_execution, no_breakpoints,
}
use wolf_cpuemulator.Bus.{init_bus}
use wolf_cpuemulator.Device.Start.{Devices, init_devices}
use wolf_cpuemulator.MmuController.Access.{Machine}
use wolf_cpuemulator.MmuController.Store.{init_machine}
use wolf_cpuemulator.System.{init_cpu}

-- The emulator between two rounds: the debugger with the lines of its input that are left, the CPU, what
-- is behind the MMU and the bus, and `clk`.
pub record Emulator (S : Type 0) : Type 0 where
  pub breakpoints : BreakpointController
  pub lines : List (List ℕ)
  pub cpu : Cpu
  pub behind : S
  pub clk : ℕ

module _ {S : Type 0} (manager : CmdParserManager BreakpointController) (mmu : Mmu S)
    (bus : Bus S) where
  -- A round of the loop
  unfoldable pub round : Emulator S → Option (Emulator S)
  round e = do
    (breakpoints, lines) ← break_execution manager e.cpu.pc e.lines e.breakpoints
    (cpu, behind) ← cycle mmu bus e.cpu e.behind
    some (record {
      breakpoints = breakpoints;
      lines = lines;
      cpu = cpu;
      behind = behind;
      clk = u64 (e.clk + 1);
    })

  -- That many rounds
  unfoldable pub start_cpu : ℕ → Emulator S → Option (Emulator S)
  unfolding round
  start_cpu zero e = some e
  start_cpu (suc n) e = round e >>= λ e'. start_cpu n e'

-- What `init_env` sets up before the loop, with the input of the debugger, and the BIOS that the MMU
-- reads
unfoldable pub init_env :
    CmdConfigurations → List (List ℕ) → Emulator (Option (Machine Devices)) × Option (List ℕ)
unfolding init_break_execution load_bios
init_env config lines =
    let (bus, devices) = init_devices init_bus in
    (
      record {
        breakpoints = init_break_execution config.debug no_breakpoints;
        lines = lines;
        cpu = init_cpu;
        behind = some (record (init_machine devices) { world = (bus, devices) });
        clk = 0;
      },
      (load_bios config).bios,
    )
