-- ===== src/Cpu/Port.antt =====
-- What the CPU asks of the MMU and of the bus: include/controllers/mmu_controller.h and
-- include/controllers/bus.h. `S` is the state of everything behind them.
use wolf_cpuemulator.Common.{ℕ}
use wolf_cpuemulator.Endian.{Bytes4}
use wolf_cpuemulator.Cpu.State.{SpecialRegisters}
use wolf_cpuemulator.Cpu.Fetch.{MmuStatus}

-- MMU_DATA; its field `status` is never read.
pub record MmuData : Type 0 where
  pub bytes : Bytes4
  pub be : ℕ

-- BUS_SEND_DATA
pub record BusSendData : Type 0 where
  pub bytes : Bytes4
  pub be : ℕ
  pub status : ℕ
  pub read_write : ℕ

-- The two functions of WOLF_CPU_MMU, which read the paging mode and the privilege of the CPU.
pub record Mmu (S : Type 0) : Type 0 where
  pub wr_mmu : SpecialRegisters → ℕ → MmuData → S → MmuStatus × S
  pub rd_mmu : SpecialRegisters → ℕ → ℕ → ℕ → S → MmuStatus × S

-- The two functions of WOLF_CPU_BUS_CONTROLLER
pub record Bus (S : Type 0) : Type 0 where
  pub send_data : ℕ → BusSendData → S → ℕ × S
  pub recv_data : ℕ → BusSendData → S → BusSendData × S
