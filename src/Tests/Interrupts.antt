-- ===== src/Tests/Interrupts.antt =====
-- The theorems on the interrupt controller at concrete inputs.
use wolf_cpuemulator.Common.{
  ℕ, ◌≡◌, ◌⊎◌, refl, arith, List, [], ◌∷◌, some, none, ◌<◌, set, replicate,
}
use wolf_cpuemulator.IrqController.State.{InterruptDesc, IrqController, irq_max_prio}
use wolf_cpuemulator.IrqController.Commands.{arbitrate}
use wolf_cpuemulator.IrqController.Device.{device_start, init_irq_controller}
use wolf_cpuemulator.IrqController.Arbitrate.{arbitrate_lem, NoneBelow, Wins}
use wolf_cpuemulator.IrqController.Invariant.{IsValid}
use wolf_cpuemulator.IrqController.Preserve.{init_irq_controller-IsValid}
use wolf_cpuemulator.IrqController.Total.{device_start_lem}

abbrev waiting : ℕ → ℕ → InterruptDesc
waiting number prio = record { irq_num = number; prio = prio; enabled = 1; ignored = 0; status = 1 }

abbrev three : List InterruptDesc
three = waiting 0 2 ∷ waiting 1 1 ∷ waiting 2 1 ∷ []

arbitrate_lem_example :
    ((arbitrate three 0 irq_max_prio none ≡ none) × NoneBelow three irq_max_prio)
    ⊎ ((k : ℕ) × (d : InterruptDesc) × (arbitrate three 0 irq_max_prio none ≡ some k)
        × (d.prio < irq_max_prio)
        × Wins three k d)
arbitrate_lem_example = arbitrate_lem three

-- The controller at its start, told to enable interrupt 5.
abbrev enabling : IrqController
enabling = record init_irq_controller { regs = set (set (replicate 8 0) 0 4) 2 5 }

enabling-IsValid : IsValid enabling
enabling-IsValid =
    let v = init_irq_controller-IsValid in
    record { eight_regs = refl; all_there = v.all_there; descs = v.descs }

device_start_lem_example : (c' : IrqController) × (device_start enabling ≡ some c') × IsValid c'
device_start_lem_example = device_start_lem enabling enabling-IsValid (omega arith)
