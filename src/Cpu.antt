-- ===== src/Cpu.antt =====
-- The processor of src/cpu*.c and src/controllers/ecall.c: its registers, and one module for each
-- stage of the pipeline that `start_cpu` runs.
pub mod State
pub mod Isa
pub mod Registers
pub mod Trap
pub mod Fetch
pub mod Decode
pub mod Execute
pub mod Writeback
pub mod UpdatePc
pub mod Port
pub mod Memory
pub mod Irq
pub mod Cycle
pub mod Runs
pub mod Stack
pub mod Program
pub mod Branch
pub mod Bounds
