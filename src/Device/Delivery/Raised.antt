-- ===== src/Device/Delivery/Raised.antt =====
-- From the clock's interrupt to its handler: `irq_trigger`, the round of the controller's thread that it
-- wakes, and `irq_call`.
use wolf_cpuemulator.Common.{
  Bool, ℕ, ◌+◌, ◌*◌, ◌%◌, ◌^◌, ◌≤◌, ◌<◌, ◌≡◌, ◌≢◌, ◌∙◌, ap, sym, subst, refl, arith, List, some,
  true, false, ◌==◌, if◌then◌else◌, get_elem?, get_elem?-set, get_or, set, length, length-set,
  lt_of_get_elem?, inl, inr, Bool-cases, ◌|||◌,
}
use wolf_cpuemulator.Common.Bits.{bit_or-pow-positive}
use wolf_cpuemulator.Common.Partial.{eq_of_some}
use wolf_cpuemulator.Cpu.State.{Cpu, is_irq_allow}
use wolf_cpuemulator.Cpu.Irq.{irq_call}
use wolf_cpuemulator.Bus.{BusController}
use wolf_cpuemulator.Device.{device_address_in_range}
use wolf_cpuemulator.Device.Irq.{irq_device_start, irq_thread}
use wolf_cpuemulator.Device.Delivery.{IsController, controller_device, exchange}
use wolf_cpuemulator.Device.Delivery.Enter.{irq_call-irq_threads}
use wolf_cpuemulator.IrqController.State.{
  InterruptDesc, IrqController, irq_status_processing, update_desc, set_valid, get_64_set_flag,
}
use wolf_cpuemulator.IrqController.Device.{irq_trigger, raise, device_start, finish_command}
use wolf_cpuemulator.IrqController.Arbitrate.{Wins, NoneBelow, is_pending}
use wolf_cpuemulator.IrqController.Invariant.{IsValid}
use wolf_cpuemulator.IrqController.Preserve.{irq_trigger-IsValid}

get_elem?-set_self :
    (ds : List InterruptDesc) (k : ℕ) (d : InterruptDesc)
    → k < length ds
    → get_elem? (set ds k d) k ≡ some d
get_elem?-set_self ds k d h = get_elem?-set ds k k d h ∙ ground arith

module _ (ctrl : IrqController) (k : ℕ) (e : InterruptDesc) where
  -- Interrupt `k` may be raised, and is the only one of the clock's priority.
  pub record IsClock : Type 0 where
    pub placed : get_elem? ctrl.registered_interrupts k ≡ some e
    pub shifted : k < 31
    pub enabled : e.enabled ≡ 1
    pub heard : e.ignored ≡ 0
    pub alone :
        (j : ℕ) (d : InterruptDesc)
        → j ≢ k
        → get_elem? ctrl.registered_interrupts j ≡ some d
        → is_pending d ≡ true
        → 1 < d.prio

  abbrev pub raised_desc : InterruptDesc
  raised_desc = record e { prio = 1; status = 1 }

  abbrev pub raised : IrqController
  raised = record ctrl {
    registered_interrupts = set ctrl.registered_interrupts k raised_desc;
    int_valid_flag = ctrl.int_valid_flag ||| 2 ^ k;
    external_irq_req = 1;
  }

  irq_trigger-clock : IsClock → irq_trigger ctrl k 0x1004 ≡ some raised
  unfolding irq_trigger raise update_desc set_valid get_64_set_flag
  irq_trigger-clock c = rw (c.placed, c.enabled) (ground (arith, c.shifted))

  raised-elem :
      IsClock
      → (j : ℕ)
      → get_elem? raised.registered_interrupts j
        ≡ (if k == j then some raised_desc else get_elem? ctrl.registered_interrupts j)
  raised-elem c j =
      get_elem?-set ctrl.registered_interrupts k j raised_desc
        (lt_of_get_elem? ctrl.registered_interrupts k c.placed)

  raised-least : IsClock → NoneBelow raised.registered_interrupts 1
  raised-least c j d at live = elim (Bool-cases (k == j)) [
    | inl same ↦
        let here : some raised_desc ≡ some d = rw (raised-elem c j, same) at at in
        subst (λ (x : InterruptDesc). 1 ≤ x.prio) (eq_of_some here) (omega arith)
    | inr other ↦
        let there : get_elem? ctrl.registered_interrupts j ≡ some d =
          rw (raised-elem c j, other) at at in
        let above = c.alone j d (ground arith) there live in omega arith
  ]

  raised-Wins : IsClock → Wins raised.registered_interrupts k raised_desc
  unfolding is_pending
  raised-Wins c = record {
    placed =
        get_elem?-set_self ctrl.registered_interrupts k raised_desc
          (lt_of_get_elem? ctrl.registered_interrupts k c.placed);
    pending = rw (c.enabled, c.heard) refl;
    least = raised-least c;
    first = λ j d lt at live.
        let there : get_elem? ctrl.registered_interrupts j ≡ some d =
          sym (raised-elem c j ∙ ground arith) ∙ at in
        c.alone j d (omega arith) there (ground arith);
  }

  module _ (me : ℕ) (bus : BusController) (at : IsController bus me) where
    out_of_reach : bus.addr ≡ 0 → device_address_in_range bus controller_device ≡ false
    unfolding device_address_in_range
    out_of_reach free = rw free refl

    idle_round : get_or ctrl.regs 0 0 ≡ 0 → device_start raised ≡ some (finish_command raised)
    unfolding device_start
    idle_round idle = rw idle refl

    woken_start :
        bus.addr ≡ 0
        → get_or ctrl.regs 0 0 ≡ 0
        → irq_device_start me (bus, raised) ≡ some (bus, finish_command raised)
    unfolding irq_device_start
    woken_start free idle = rw (at.registered, out_of_reach free, idle_round idle) refl

    -- The round of the thread that the trigger wakes, while the bus is free and no command is given
    woken :
        bus.addr ≡ 0
        → get_or ctrl.regs 0 0 ≡ 0
        → irq_thread me (bus, some raised) ≡ (bus, some (finish_command raised))
    unfolding irq_thread
    woken free idle = rw (at.registered, out_of_reach free, woken_start free idle) refl

    told : (finish_command raised).external_irq ≡ 1
    unfolding finish_command
    told = ground (arith, bit_or-pow-positive ctrl.int_valid_flag k)

    finished-IsValid : IsValid ctrl → IsClock → IsValid (finish_command raised)
    unfolding finish_command
    finished-IsValid v c =
        let r = irq_trigger-IsValid ctrl k 0x1004 v (irq_trigger-clock c) in
        record {
          eight_regs = length-set ctrl.regs 0 0 ∙ v.eight_regs;
          all_there = r.all_there;
          descs = r.descs;
        }

    finished-Wins : IsClock → Wins (finish_command raised).registered_interrupts k raised_desc
    unfolding finish_command
    finished-Wins c = raised-Wins c

    -- The interrupt controller stands on the bus as `irq_call` needs it, the bus is free, and no command
    -- is in its registers, which are sound, like its 64 descriptors. Interrupt `k`, below 31, is enabled
    -- and not ignored, and every other pending interrupt has a priority number above 1. When the clock,
    -- the device of vendor 0x1004, raises interrupt `k`, the round of the controller's thread that this
    -- wakes tells the CPU. If interrupts are allowed in a BCR below 256, and the thread makes its next
    -- round within the wait of the CPU's write, the deadline of which is a time, the next `irq_call` saves
    -- the old program counter and turns interrupts off; the interrupt is then being processed, with
    -- priority 1. The new program counter is the 16-byte slot of `k` if the thread makes one more round
    -- before the read's wait ends, and that of 7, the byte of the CPU's own request, if it does not.
    pub irq_trigger-irq_call :
        (answers : Bool) (cpu : Cpu)
        → IsValid ctrl
        → IsClock
        → bus.addr ≡ 0
        → get_or ctrl.regs 0 0 ≡ 0
        → cpu.spe_regs.bcr < 256
        → is_irq_allow cpu.spe_regs.bcr ≡ true
        → (c1 c2 : IrqController) × (irq_trigger ctrl k 0x1004 ≡ some c1)
          × (irq_thread me (bus, some c1) ≡ (bus, some c2))
          × (d : Cpu) × (bus' : BusController) × (c3 : IrqController) × (irq_call
                (exchange me answers)
                (record cpu { external_irq = c2.external_irq })
                (bus, some c2)
              ≡ some (d, (bus', some c3)))
          × (d.pc ≡ (cpu.irq_regs.mpc + (if answers then k else 7) * 16) % 2 ^ 32)
          × (d.irq_regs.mep ≡ cpu.pc)
          × (is_irq_allow d.spe_regs.bcr ≡ false)
          × (get_elem? c3.registered_interrupts k
              ≡ some (record raised_desc { status = irq_status_processing }))
    irq_trigger-irq_call answers cpu v c free idle hb allowed =
        let c2 = finish_command raised in
        let (d, bus', c3, called, pc, mep, off, cleared, table, addr) =
          irq_call-irq_threads me bus at c2 k raised_desc answers
            (record cpu { external_irq = c2.external_irq }) (finished-IsValid v c) (finished-Wins c)
            (omega arith) hb allowed (omega (arith, told)) in
        (
          raised,
          c2,
          irq_trigger-clock c,
          woken free idle,
          d,
          bus',
          c3,
          called,
          pc,
          mep,
          off,
          ap (λ t. get_elem? t k) table
              ∙ get_elem?-set_self c2.registered_interrupts k _
                  (lt_of_get_elem? c2.registered_interrupts k (finished-Wins c).placed),
        )
