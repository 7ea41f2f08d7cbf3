-- ===== src/Lib.antt =====
-- Verification of the Wolf CPU emulator: a 32-bit processor with its pipeline, its memory and its
-- interrupt controller, written in C.
--
-- The program. `start_cpu` of src/cpu.c runs the stages of a cycle one after the other: fetch,
-- access check, decode, execute, the processing of exceptions, memory, writeback, the next program
-- counter, and external interrupts. The stages share the record WOLF_CPU, in which WCPUTempData
-- carries the instruction in flight; `noexception` stops it. The stages reach memory through the
-- MMU, which walks the page tables with the memory controller, looks into two levels of cache, and
-- sends accesses of device registers over the bus. The memory controller uses the memory of
-- src/ram_eff.c. Devices run in threads of their own; the interrupt controller is one of them.
--
-- The files, and what they model.
-- Common and its children hold no code of the program: Boolean tests, lists, option chains, words,
-- bits, integers, and checks of all numbers below a bound.
-- Logic: src/logics/logic_alg.c, the branchless selectors, under their names in lower case.
-- Endian: include/tools/endian.h and the masks of include/global.h.
-- Alu: src/alu.c. The operations return the result together with the new SCR.
-- Cpu: State has the records of include/cpu.h and include/register.h, Isa their constants, Registers
--   `getRegVal` and `write_reg_val`. Fetch, Decode, Execute, Memory, Writeback and UpdatePc are the
--   stages of src/cpu_fetch.c, cpu_decode.c, cpu_execute.c, cpu_mem.c, cpu_wb.c and cpu_update_pc.c.
--   Trap is src/controllers/ecall.c with src/cpu_access_check.c and src/cpu_ecall_process.c; Irq is
--   its `irq_call`. Port has the functions of the MMU and the bus that the CPU calls, as records over
--   any state behind them, and Cycle composes the stages as `start_cpu` does; Runs has runs of cycles,
--   between which the devices act and may raise an interrupt.
--   Program has the instructions MOV and JMP, and those of the ALU with an immediate, as the
--   registers and the flags see them, without the pipeline, with their words as in the listings of
--   asm; between them no interrupt is taken.
-- Ram: src/ram_eff.c. A block that was never touched is `none`.
-- MemController: src/controllers/mem_controller.c.
-- Cache: src/controllers/cache_controller.c and cache.c.
-- MmuController: the page walk of src/controllers/mmu_controller.c. Access has its reads and Store its
--   writes, over any bus; a Machine is what stands behind them.
-- IrqController: src/mmio_devices/irq_controller.c, with its State, its Commands and the Device around
--   them. A function takes the controller, under its lock, to the controller behind it.
-- Bus: src/controllers/bus.c. What the devices do around the wait of the bus is a list of steps.
-- Device: src/mmio_devices/device_tools.c, and in its children Stdo, Clock, Irq and Start the devices
--   of stdo_device.c, clock_device.c, irq_controller.c and device_init.c on the bus; Delivery has
--   the exchange of `irq_call` with the interrupt controller.
-- Commands: src/commands/command.c; Boot has the options of cmd_load_bios.c and its like, with
--   src/tools/tools.c, src/bios_loader/bios_file.c and main.c.
-- Debugger: src/debug/debug_log.c.
-- System: `init_cpu` of src/cpu.c, and the whole machine; Loop has `init_env` and the loop of
--   `start_cpu`, a round of which is the debugger's wait, a cycle and the count of the cycles;
--   Bios has programs in the BIOS file.
-- Tests: the theorems at concrete inputs.
--
-- Conventions. Numbers are natural numbers; a value that C stores into a w-bit word or bit-field is
-- taken modulo 2 ^ w where it is stored. What C leaves undefined is `none`: an index past an array,
-- and a shift into or past the sign bit. Arrays that are indexed within their bounds by construction
-- are functions of the index, as are the pages of memory. Every function is total by structural
-- recursion, on a list or on the number of elements left of a loop with a fixed bound, so no fuel is
-- needed.
--
-- Parameters. The bus of the MMU is a record of its two functions, over any devices, and
-- src/controllers/bus.c is one such bus. What the threads of the devices do is a function from the
-- device that was signalled: for a read, to the list of the steps that they make before its wait ends,
-- the deadline of which has passed; for a write, to those before and during its wait, and to whether its
-- deadline is a time. If it is none, since its nanoseconds reach 10 ^ 9, a wait without an answer never
-- ends, and the state of the devices is `none`. What the system gives for a file's name, and `strtoul` of
-- the C library, are functions. A round of a device's thread is one step: what C lets run in the midst of
-- it is not modelled.
--
-- Not modelled: allocation, freeing, sleeping, time, locks, the creation of threads and their
-- scheduling, and what is printed but for the characters of the output device, since they are effects
-- of the C library and the system; the keyboard, which is an empty stub; the parts that only
-- _EMU_DEBUG and _EMU_IRQ_TEST_DEBUG compile, which are not defined, while _EMU_MMIO_DEBUG is; the
-- operations that are commented out in the source; a line of the debugger of more than 1000 characters,
-- once it is not one that goes on.
pub mod Common
pub mod Logic
pub mod Endian
pub mod Alu
pub mod Cpu
pub mod Ram
pub mod MemController
pub mod Cache
pub mod MmuController
pub mod IrqController
pub mod Bus
pub mod Device
pub mod Commands
pub mod Debugger
pub mod System
pub mod Tests
