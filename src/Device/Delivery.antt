-- ===== src/Device/Delivery.antt =====
-- The exchange of `irq_call` of src/controllers/ecall.c with the interrupt controller of
-- src/mmio_devices/irq_controller.c, through src/controllers/bus.c.
pub mod Send
pub mod Receive
pub mod Code
pub mod Enter
pub mod Raised
use wolf_cpuemulator.Cpu.Port.{Bus}
use wolf_cpuemulator.Common.{
  Bool, if◌then◌else◌, Option, ℕ, zero, suc, ◌+◌, ◌^◌, ◌≤◌, ◌<◌, ◌≡◌, ◌∙◌, refl, arith, List, [],
  ◌∷◌, some, none, Option, true, false, u8, ◌==◌, if◌then◌else◌, is_set, get_elem?, set, ap,
  Bool-cases, ==_iff, inl, inr,
}
use wolf_cpuemulator.Logic.Select.{mux8_if, through8_if}
use wolf_cpuemulator.Endian.{
  bytes4_at, set_bytes4, Bytes4, copy_byte_4_array_with_be, copy_byte_4_array_selected_with_be,
}
use wolf_cpuemulator.Cpu.Port.{BusSendData}
use wolf_cpuemulator.Cpu.Irq.{ask_irqcode, processing_request, bus_irq_controller_device_base_addr}
use wolf_cpuemulator.Bus.{
  BusController, BusDevice, signalled, is_addressed, set_status, bus_send_data, bus_recv_data,
  wait_answer, run_steps, request, max_bus_device, bus_rw_write, bus_rw_read, bus_port, in_time,
  Step, World,
}
use wolf_cpuemulator.Device.{
  read_reg_general, write_reg_general, device_address_in_range, process_register_writing, reset_bus,
}
use wolf_cpuemulator.Device.Irq.{
  irq_write_reg, irq_read_reg, irq_device_start, irq_thread, irq_threads, init_irq_device,
}
use wolf_cpuemulator.IrqController.State.{InterruptDesc, IrqController, irq_max_prio, update_desc}
use wolf_cpuemulator.IrqController.Commands.{process, arbitrate, deliver}
use wolf_cpuemulator.IrqController.Device.{device_start, finish_command}

-- The interrupt controller's device, moved to the address where `irq_call` looks for it
abbrev pub controller_device : BusDevice
controller_device = record init_irq_device { base_address = bus_irq_controller_device_base_addr }

-- It stands at position `me` of the bus, and no device before it answers the two addresses.
pub record IsController (bus : BusController) (me : ℕ) : Type 0 where
  pub registered : bus.devices me ≡ some controller_device
  pub slot : me < max_bus_device
  pub no_other :
      (i : ℕ)
      → i < me
      → (is_addressed bus_irq_controller_device_base_addr (bus.devices i) ≡ false)
        × (is_addressed (bus_irq_controller_device_base_addr + 2) (bus.devices i) ≡ false)

-- The loop over the devices stops at the first one that answers.
signalled_first :
    (devices : ℕ → Option BusDevice) (addr i left k : ℕ)
    → i ≤ k
    → k < i + left
    → ((j : ℕ) → i ≤ j → j < k → is_addressed addr (devices j) ≡ false)
    → is_addressed addr (devices k) ≡ true
    → signalled devices addr i left ≡ some k
unfolding signalled
signalled_first devices addr i zero k low high others here = absurd (omega arith)
signalled_first devices addr i (suc left) k low high others here = elim (Bool-cases (i == k)) [
  | inl e ↦
      let same : i ≡ k = (==_iff i k).0 e in
      rw (ap (λ x. is_addressed addr (devices x)) same ∙ here) (ap some same)
  | inr e ↦
      let less : i < k = ground arith in
      rw (others i (omega arith) less) (
        signalled_first devices addr (i + 1) left k (omega arith) (omega arith)
          (λ j h. others j (omega arith)) here)
]

module _ (bus : BusController) (me : ℕ) (c : IsController bus me) where
  pub signalled_write :
      signalled (bus.devices) bus_irq_controller_device_base_addr 0 max_bus_device ≡ some me
  unfolding is_addressed init_irq_device
  signalled_write =
      signalled_first (bus.devices) bus_irq_controller_device_base_addr 0 max_bus_device me
        (omega arith) c.slot (λ j _ h. (c.no_other j h).0) (rw c.registered refl)

  pub signalled_read :
      signalled (bus.devices) (bus_irq_controller_device_base_addr + 2) 0 max_bus_device ≡ some me
  unfolding is_addressed init_irq_device
  signalled_read =
      signalled_first (bus.devices) (bus_irq_controller_device_base_addr + 2) 0 max_bus_device me
        (omega arith) c.slot (λ j _ h. (c.no_other j h).1) (rw c.registered refl)

pub irq_threads_self : (me : ℕ) → irq_threads me (some me) ≡ irq_thread me ∷ []
unfolding irq_threads
irq_threads_self me = ground arith

pub irq_thread-step :
    (me : ℕ) (bus : BusController) (ctrl : IrqController) {bus' : BusController}
    {ctrl' : IrqController}
    → bus.devices me ≡ some controller_device
    → device_address_in_range bus controller_device ≡ true
    → irq_device_start me (bus, ctrl) ≡ some (bus', ctrl')
    → irq_thread me (bus, some ctrl) ≡ (bus', some ctrl')
unfolding irq_thread
irq_thread-step me bus ctrl registered here starts = rw (registered, here, starts)

-- The bus of the CPU: the controller's thread makes its round within the wait of the write, the deadline
-- of which is a time, and within the wait of the read or not.
abbrev pub reads : ℕ → Bool → Option ℕ → List (Step IrqController)
reads me answers i = if answers then irq_threads me i else []

abbrev pub exchange : ℕ → Bool → Bus (World (Option IrqController))
exchange me answers = bus_port (in_time (irq_threads me)) (reads me answers)
