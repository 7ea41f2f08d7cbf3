-- ===== src/Tests/Delivery.antt =====
-- The theorem on the delivery of an interrupt at a concrete machine.
use wolf_cpuemulator.Common.{
  ℕ, ◌≡◌, ◌∙◌, Bool, List, ◌∷◌, [], none, zero, true, false, not, ◌&&◌, suc, inl, inr, ◌+◌, ◌*◌,
  ◌%◌, ◌^◌, ◌<◌, sym, subst, ap, refl, arith, some, none, set, ◌==◌, if◌then◌else◌, false,
  get_elem?,
}
use wolf_cpuemulator.Common.Partial.{eq_of_some}
use wolf_cpuemulator.Cpu.State.{Cpu, is_irq_allow}
use wolf_cpuemulator.Cpu.Irq.{irq_call}
use wolf_cpuemulator.Bus.{BusController, init_bus, is_addressed}
use wolf_cpuemulator.Device.Irq.{irq_thread, init_irq_device}
use wolf_cpuemulator.Device.Delivery.{IsController, controller_device, exchange}
use wolf_cpuemulator.Device.Delivery.Enter.{irq_call-irq_threads}
use wolf_cpuemulator.IrqController.State.{InterruptDesc, IrqController, irq_max_prio, update_desc}
use wolf_cpuemulator.IrqController.Commands.{arbitrate, is_candidate}
use wolf_cpuemulator.IrqController.Device.{init_irq_controller, init_descs, irq_trigger}
use wolf_cpuemulator.IrqController.Arbitrate.{arbitrate_lem, Wins, is_pending}
use wolf_cpuemulator.IrqController.Invariant.{IsValid, update_desc-IsValid}
use wolf_cpuemulator.IrqController.Preserve.{init_irq_controller-IsValid}
use wolf_cpuemulator.Device.Delivery.Raised.{IsClock, irq_trigger-irq_call}
use wolf_cpuemulator.Tests.Data.{in_flight, cpu_with}

-- The output device and the interrupt controller
abbrev two_devices : BusController
two_devices = record init_bus {
  devices = λ i.
      if i == 0
      then some (record controller_device { base_address = 0xffff0000 })
      else if i == 1
      then some controller_device
      else none;
}

is_zero : {i : ℕ} → i < 1 → 0 ≡ i
is_zero h = omega arith

first-other :
    (is_addressed 0xffff000a (two_devices.devices 0) ≡ false)
    × (is_addressed 0xffff000c (two_devices.devices 0) ≡ false)
unfolding is_addressed init_irq_device
first-other = (refl, refl)

two_devices-IsController : IsController two_devices 1
two_devices-IsController = record {
  registered = refl;
  slot = omega arith;
  no_other = λ i h.
      subst
        (λ j.
          (is_addressed 0xffff000a (two_devices.devices j) ≡ false)
          × (is_addressed 0xffff000c (two_devices.devices j) ≡ false))
        (is_zero h) first-other;
}

abbrev urgent : InterruptDesc
urgent = record { irq_num = 2; prio = 1; enabled = 1; ignored = 0; status = 1 }

-- The controller with one pending interrupt, number 2
abbrev pending : IrqController
pending = record init_irq_controller {
  registered_interrupts = set init_irq_controller.registered_interrupts 2 urgent;
  int_valid_flag = 4;
}

pending-IsValid : IsValid pending
unfolding update_desc init_irq_controller init_descs
pending-IsValid =
    let v =
      update_desc-IsValid init_irq_controller 2 (λ d. urgent)
        (λ d h. record {
          own_number = refl;
          enabled_bit = omega arith;
          ignored_bit = omega arith;
          known_status = omega arith;
          prio_bound = omega arith;
        })
        init_irq_controller-IsValid refl in
    record { eight_regs = v.eight_regs; all_there = v.all_there; descs = v.descs }

pending-chosen : arbitrate pending.registered_interrupts 0 irq_max_prio none ≡ some 2
unfolding arbitrate is_candidate init_irq_controller init_descs
pending-chosen = refl

pending-placed : get_elem? pending.registered_interrupts 2 ≡ some urgent
unfolding init_irq_controller init_descs
pending-placed = refl

pending-Wins : Wins pending.registered_interrupts 2 urgent
pending-Wins = elim (arbitrate_lem pending.registered_interrupts) [
  | inl (r, low) ↦ let chosen = pending-chosen in absurd cc
  | inr (k, d, r, lt, w) ↦
      let k_eq : k ≡ 2 = eq_of_some (sym r ∙ pending-chosen) in
      let d_eq : d ≡ urgent = eq_of_some (
        sym w.placed ∙ ap (λ i. get_elem? pending.registered_interrupts i) k_eq ∙ pending-placed) in
      subst (λ x. Wins pending.registered_interrupts 2 x) d_eq
        (subst (λ i. Wins pending.registered_interrupts i d) k_eq w)
]

abbrev waiting_cpu : Cpu
waiting_cpu = record (cpu_with (in_flight 0 0 0 0 0 0) 0) { external_irq = 1 }

irq_call-irq_threads_example :
    (d : Cpu) × (bus' : BusController) × (ctrl' : IrqController) × (irq_call
        (exchange 1 true)
        waiting_cpu
        (two_devices, some pending)
      ≡ some (d, (bus', some ctrl')))
    × (d.pc ≡ (waiting_cpu.irq_regs.mpc + 2 * 16) % 2 ^ 32)
    × (d.irq_regs.mep ≡ waiting_cpu.pc)
    × (is_irq_allow d.spe_regs.bcr ≡ false)
    × (d.external_irq ≡ 0)
    × (ctrl'.registered_interrupts
        ≡ set pending.registered_interrupts 2 (record urgent { status = 2 }))
    × (bus'.addr ≡ 0)
irq_call-irq_threads_example =
    irq_call-irq_threads 1 two_devices two_devices-IsController pending 2 urgent true waiting_cpu
      pending-IsValid pending-Wins (omega arith) (omega arith) refl (omega arith)

-- Interrupt 4, which the clock raises, is enabled.
abbrev clock_desc : InterruptDesc
clock_desc = record { irq_num = 4; prio = 3; enabled = 1; ignored = 0; status = 0 }

abbrev at_rest : IrqController
at_rest = record init_irq_controller {
  registered_interrupts = set init_irq_controller.registered_interrupts 4 clock_desc;
}

at_rest-IsValid : IsValid at_rest
unfolding update_desc init_irq_controller init_descs
at_rest-IsValid =
    update_desc-IsValid init_irq_controller 4 (λ d. clock_desc)
      (λ d h. record {
        own_number = refl;
        enabled_bit = omega arith;
        ignored_bit = omega arith;
        known_status = omega arith;
        prio_bound = omega arith;
      })
      init_irq_controller-IsValid refl

-- No descriptor of a list is pending.
abbrev none_pending : List InterruptDesc → Bool
none_pending [] = true
none_pending (d ∷ ds) = not (is_pending d) && none_pending ds

none_pending-elem :
    (ds : List InterruptDesc) (j : ℕ) (d : InterruptDesc)
    → none_pending ds ≡ true
    → get_elem? ds j ≡ some d
    → is_pending d ≡ false
none_pending-elem [] j d h at = absurd cc
none_pending-elem (x ∷ ds) zero d h at =
    subst (λ y. is_pending y ≡ false) (eq_of_some at) (ground (arith, h))
none_pending-elem (x ∷ ds) (suc j) d h at = none_pending-elem ds j d (ground (arith, h)) at

quiet_table : none_pending at_rest.registered_interrupts ≡ true
unfolding is_pending init_irq_controller init_descs
quiet_table = refl

clock_placed : get_elem? at_rest.registered_interrupts 4 ≡ some clock_desc
unfolding init_irq_controller init_descs
clock_placed = refl

at_rest-IsClock : IsClock at_rest 4 clock_desc
at_rest-IsClock = record {
  placed = clock_placed;
  shifted = omega arith;
  enabled = refl;
  heard = refl;
  alone = λ j d other at live.
      let still = none_pending-elem at_rest.registered_interrupts j d quiet_table at in absurd cc;
}

irq_trigger-irq_call_example :
    (c1 c2 : IrqController) × (irq_trigger at_rest 4 0x1004 ≡ some c1)
    × (irq_thread 1 (two_devices, some c1) ≡ (two_devices, some c2))
    × (d : Cpu) × (bus' : BusController) × (c3 : IrqController) × (irq_call
          (exchange 1 true)
          (record waiting_cpu { external_irq = c2.external_irq })
          (two_devices, some c2)
        ≡ some (d, (bus', some c3)))
    × (d.pc ≡ (waiting_cpu.irq_regs.mpc + 4 * 16) % 2 ^ 32)
    × (d.irq_regs.mep ≡ waiting_cpu.pc)
    × (is_irq_allow d.spe_regs.bcr ≡ false)
    × (get_elem? c3.registered_interrupts 4 ≡ some (record clock_desc { prio = 1; status = 2 }))
unfolding init_irq_controller init_bus
irq_trigger-irq_call_example =
    irq_trigger-irq_call at_rest 4 clock_desc 1 two_devices two_devices-IsController true
      waiting_cpu at_rest-IsValid at_rest-IsClock refl refl (omega arith) refl
