-- ===== src/Tests/Bios.antt =====
-- A program in a BIOS file, from the reset of the machine.
use wolf_cpuemulator.Common.{
  ℕ, zero, suc, ◌<◌, ◌^◌, refl, arith, true, List, [], ◌∷◌, some, replicate, get_or, Option,
}
use wolf_cpuemulator.Bus.{World, bus_port, in_time}
use wolf_cpuemulator.Endian.{sep_int_for_4_bytes_b, bytes4_at}
use wolf_cpuemulator.Cpu.State.{Cpu}
use wolf_cpuemulator.Cpu.Port.{Bus}
use wolf_cpuemulator.MmuController.Access.{Machine}
use wolf_cpuemulator.MmuController.Store.{mmu_port, init_machine}
use wolf_cpuemulator.Cpu.Program.{mov_imm, alu_imm, op_add, encode, perform}
use wolf_cpuemulator.Cpu.Program.Refines.{HasWords, Reaches}
use wolf_cpuemulator.Cpu.Program.Trace.{run_instructions}
use wolf_cpuemulator.System.{init_cpu}
use wolf_cpuemulator.System.Bios.{done, first, run_instructions-Performs}

-- movw r1,0xffff; add r1,0x1; jmp back to the start
abbrev bios_file : List ℕ
bios_file = 2 ∷ 16 ∷ 0xff ∷ 0xff ∷ 4 ∷ 0 ∷ 0x41 ∷ 0 ∷ []

abbrev silent : Bus (World (Option ℕ))
silent = bus_port (in_time (λ _. [])) (λ _. [])

abbrev machine : Machine (Option ℕ)
machine = init_machine (some 0)

abbrev reached : Cpu
reached = perform (alu_imm op_add true 0 1) (perform (mov_imm 2 0 0xffff) init_cpu)

zeros : (n r : ℕ) → get_or (replicate n 0) r 0 < 2 ^ 32
zeros zero r = omega arith
zeros (suc n) zero = omega arith
zeros (suc n) (suc r) = zeros n r

init_cpu-HasWords : HasWords init_cpu
unfolding init_cpu
init_cpu-HasWords = record { fifteen = refl; words = zeros 15 }

run_instructions-Performs_example :
    Reaches
      (run_instructions (mmu_port silent bios_file) 2 init_cpu (some machine))
      reached
      (some machine)
unfolding init_cpu encode perform bytes4_at sep_int_for_4_bytes_b
run_instructions-Performs_example =
    run_instructions-Performs silent bios_file machine
      {is = mov_imm 2 0 0xffff ∷ alu_imm op_add true 0 1 ∷ []} {c = init_cpu} {c' = reached}
      (first (omega arith)
        (record { from = omega arith; upto = omega arith; aligned = refl; there = refl })
        (first (omega arith)
          (record { from = omega arith; upto = omega arith; aligned = refl; there = refl }) done))
      (record { kernel = refl; flat = refl }) init_cpu-HasWords
