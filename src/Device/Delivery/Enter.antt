-- ===== src/Device/Delivery/Enter.antt =====
-- A pending interrupt and the CPU that takes it: `irq_call` over the bus and the interrupt controller.
use wolf_cpuemulator.Common.{
  ℕ, ◌+◌, ◌*◌, ◌%◌, ◌^◌, ◌<◌, ◌≡◌, ◌≢◌, ◌∙◌, ap, sym, subst, refl, arith, some, none, Option, true,
  false, Bool, if◌then◌else◌, ◌&&&◌, get_elem?, get_or, set, lt_of_get_elem?, u8,
}
use wolf_cpuemulator.Endian.{get_int_from_4_bytes_l}
use wolf_cpuemulator.Cpu.State.{Cpu, is_irq_allow}
use wolf_cpuemulator.Cpu.Irq.{
  irq_call, ask_irqcode, processing_request, bus_irq_controller_device_base_addr,
}
use wolf_cpuemulator.Cpu.Irq.Enter.{irq_call_lem}
use wolf_cpuemulator.Bus.{World, BusController, bus_port, bus_recv_data, request, set_status}
use wolf_cpuemulator.Device.{reset_bus}
use wolf_cpuemulator.Device.Delivery.{IsController, exchange, reads}
use wolf_cpuemulator.Device.Delivery.Send.{send_round, sent, delivered}
use wolf_cpuemulator.Device.Delivery.Receive.{recv_round, recv_late}
use wolf_cpuemulator.IrqController.State.{
  InterruptDesc, IrqController, irq_max_prio, irq_status_processing,
}
use wolf_cpuemulator.IrqController.Commands.{arbitrate}
use wolf_cpuemulator.IrqController.Device.{finish_command}
use wolf_cpuemulator.IrqController.Arbitrate.{Wins, arbitrate-Wins}
use wolf_cpuemulator.IrqController.Invariant.{IsValid}
use wolf_cpuemulator.Device.Delivery.Code.{
  tabulated, tabulated-get_or, ask_irqcode-sent, first-code,
}

request-code : get_int_from_4_bytes_l processing_request.bytes &&& 0xff ≡ 7
unfolding get_int_from_4_bytes_l
request-code = refl

code-below : (answers : Bool) (k : ℕ) → k < 64 → (if answers then k else 7) < 64
code-below true k h = h
code-below false k h = omega arith

-- The answer to `irq_call`, and the controller behind it
record IsAnswer (answers : Bool) (r : ℕ × World (Option IrqController)) (k : ℕ)
    (ctrl : IrqController) (e : InterruptDesc) : Type 0 where
  code : r.0 ≡ (if answers then k else 7)
  bus' : BusController
  ctrl' : IrqController
  behind : r.1 ≡ (bus', some ctrl')
  table : ctrl'.registered_interrupts ≡ set ctrl.registered_interrupts k (record e { status = 2 })
  free : bus'.addr ≡ (if answers then 0 else 0xffff000c)

module _ (me : ℕ) (bus : BusController) (c : IsController bus me) (ctrl : IrqController) (k : ℕ)
    (e : InterruptDesc) where
  module _ (chosen : arbitrate ctrl.registered_interrupts 0 irq_max_prio none ≡ some k)
      (placed : get_elem? ctrl.registered_interrupts k ≡ some e) (own : e.irq_num ≡ k)
      (small : k < 64) (f : ℕ → ℕ) where
    abbrev behind_write : World (Option IrqController)
    behind_write = (
      sent (f 0) (f 1) (f 2) (f 3) (f 4) (f 5) (f 6) (f 7) bus me c ctrl k e chosen placed,
      some (
          delivered (f 0) (f 1) (f 2) (f 3) (f 4) (f 5) (f 6) (f 7) bus me c ctrl k e chosen
            placed),
    )

    -- What the read brings after the write, in time or not
    read_back :
        (answers : Bool)
        → let (answer, (bus', devs)) =
            bus_recv_data
              (reads me answers)
              (bus_irq_controller_device_base_addr + 2)
              processing_request
              behind_write in
          (get_int_from_4_bytes_l answer.bytes &&& 0xff ≡ (if answers then k else 7))
          × (bus'.addr ≡ (if answers then 0 else 0xffff000c))
          × (ctrl' : IrqController) × (devs ≡ some ctrl')
          × (ctrl'.registered_interrupts
              ≡ set ctrl.registered_interrupts k (record e { status = 2 }))
    unfolding set_status reset_bus finish_command request
    read_back true =
        let (s0, ctrls) = behind_write in
        let ctrl1 =
          delivered (f 0) (f 1) (f 2) (f 3) (f 4) (f 5) (f 6) (f 7) bus me c ctrl k e chosen
            placed in
        let c1 : IsController s0 me = record {
          registered = c.registered;
          slot = c.slot;
          no_other = c.no_other;
        } in
        let (bytes, devs, addr, table) =
          recv_round 0 (u8 e.irq_num) (u8 (f 3)) (f 4) (f 5) (f 6) (f 7) s0 me c1 ctrl1 in
        (
          ap (λ b. get_int_from_4_bytes_l b &&& 0xff) bytes
              ∙ first-code e.irq_num (omega arith)
              ∙ own,
          addr,
          finish_command ctrl1,
          table,
          refl,
        )
    read_back false =
        let ctrl1 =
          delivered (f 0) (f 1) (f 2) (f 3) (f 4) (f 5) (f 6) (f 7) bus me c ctrl k e chosen
            placed in
        let (bytes, addr, table) = recv_late behind_write.0 ctrl1 in
        (ap (λ b. get_int_from_4_bytes_l b &&& 0xff) bytes ∙ request-code, addr, ctrl1, table, refl)

    ask_irqcode-IsAnswer :
        (answers : Bool)
        → IsAnswer answers
            (ask_irqcode (exchange me answers) (bus, some (record ctrl { regs = tabulated 8 f })))
            k
            ctrl
            e
    unfolding bus_port
    ask_irqcode-IsAnswer answers =
        let asked =
          ask_irqcode-sent (exchange me answers) (bus, some (record ctrl { regs = tabulated 8 f }))
            behind_write
            (send_round (f 0) (f 1) (f 2) (f 3) (f 4) (f 5) (f 6) (f 7) bus me c ctrl k e chosen
              placed) in
        let (code, addr, ctrl', devs, table) = read_back answers in
        record {
          code = ap (λ t. t.0) asked ∙ code;
          bus' =
              (bus_recv_data (reads me answers) (bus_irq_controller_device_base_addr + 2)
                processing_request behind_write).1.0;
          ctrl' = ctrl';
          behind =
              ap (λ t. t.1) asked
              ∙ ap
                  (λ o. (
                    (bus_recv_data (reads me answers) (bus_irq_controller_device_base_addr + 2)
                        processing_request behind_write).1.0,
                    o,
                  ))
                  devs;
          table = table;
          free = addr;
        }

  module _ (answers : Bool) where
    IsValid-IsAnswer :
        IsValid ctrl
        → Wins ctrl.registered_interrupts k e
        → e.prio < irq_max_prio
        → IsAnswer answers (ask_irqcode (exchange me answers) (bus, some ctrl)) k ctrl e
    IsValid-IsAnswer v w urgent =
        let f = λ (i : ℕ). get_or ctrl.regs i 0 in
        let regs : ctrl.regs ≡ tabulated 8 f =
          tabulated-get_or ctrl.regs ∙ ap (λ n. tabulated n f) v.eight_regs in
        let small = lt_of_get_elem? ctrl.registered_interrupts k w.placed in
        subst
          (λ rs.
            IsAnswer answers
              (ask_irqcode (exchange me answers) (bus, some (record ctrl { regs = rs }))) k ctrl e)
          (sym regs)
          (ask_irqcode-IsAnswer (arbitrate-Wins ctrl.registered_interrupts k e w urgent) w.placed
            (v.descs k e w.placed).own_number (omega (arith, small, v.all_there)) f answers)

    -- The interrupt controller stands on the bus at the address where the CPU looks for it, no device
    -- before it answers there, and its thread is woken when the bus signals it. Its registers and its 64
    -- descriptors are sound, and interrupt `k` is the pending one of the lowest priority number, the first
    -- of these, with a number below 3. An external interrupt is raised and allowed in a BCR below 256, and
    -- the thread makes its round within the wait of the CPU's write, the deadline of which is a time. If
    -- it makes the next one before the read's wait ends, whose deadline has passed, `irq_call` takes the
    -- program counter to the 16-byte slot of interrupt `k` and leaves the bus free. If not, the CPU reads
    -- back its own request, takes the slot of 7 for that, and the bus keeps the address of the read. Both
    -- ways the old program counter is saved, interrupts are off, the request is cleared, and in the
    -- controller only interrupt `k` changes its descriptor, whose status becomes processing.
    pub irq_call-irq_threads :
        (cpu : Cpu)
        → IsValid ctrl
        → Wins ctrl.registered_interrupts k e
        → e.prio < irq_max_prio
        → cpu.spe_regs.bcr < 256
        → is_irq_allow cpu.spe_regs.bcr ≡ true
        → cpu.external_irq ≢ 0
        → (d : Cpu) × (bus' : BusController) × (ctrl' : IrqController) × (irq_call
              (exchange me answers)
              cpu
              (bus, some ctrl)
            ≡ some (d, (bus', some ctrl')))
          × (d.pc ≡ (cpu.irq_regs.mpc + (if answers then k else 7) * 16) % 2 ^ 32)
          × (d.irq_regs.mep ≡ cpu.pc)
          × (is_irq_allow d.spe_regs.bcr ≡ false)
          × (d.external_irq ≡ 0)
          × (ctrl'.registered_interrupts
              ≡ set ctrl.registered_interrupts k (record e { status = irq_status_processing }))
          × (bus'.addr ≡ (if answers then 0 else 0xffff000c))
    irq_call-irq_threads cpu v w urgent hb allowed raised =
        let port = exchange me answers in
        let s : World (Option IrqController) = (bus, some ctrl) in
        let a = IsValid-IsAnswer v w urgent in
        let small = lt_of_get_elem? ctrl.registered_interrupts k w.placed in
        let code_small =
          subst (λ x. x < 64) (sym a.code)
            (code-below answers k (omega (arith, small, v.all_there))) in
        let (d, called, pc, mep, off, cleared, mode) =
          irq_call_lem port cpu s hb allowed raised code_small in
        (
          d,
          a.bus',
          a.ctrl',
          called ∙ ap (λ r. some (d, r)) a.behind,
          pc ∙ ap (λ x. (cpu.irq_regs.mpc + x * 16) % 2 ^ 32) a.code,
          mep,
          off,
          cleared,
          a.table,
          a.free,
        )
