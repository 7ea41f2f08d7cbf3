-- ===== src/Device/Irq.antt =====
-- src/mmio_devices/irq_controller.c on the bus: its registers, and a round of its thread.
use wolf_cpuemulator.Common.{
  ℕ, ◌!=◌, ◌==◌, ◌||◌, is_set, if◌then◌else◌, Option, none, some, List, [], ◌∷◌,
}
use wolf_cpuemulator.Common.Partial.{◌>>=◌}
use wolf_cpuemulator.Bus.{World, Step, BusController, BusDevice}
use wolf_cpuemulator.Device.{
  read_reg_general, write_reg_general, process_register_writing, device_address_in_range,
  stat_success,
}
use wolf_cpuemulator.IrqController.State.{IrqController, irq_controller_device_regs}
use wolf_cpuemulator.IrqController.Device.{device_start}

-- The status of the device is kept in the controller's own record.
unfoldable pub irq_write_reg :
    ℕ → ℕ → BusController × IrqController → Option (BusController × IrqController)
irq_write_reg me addr (bus, ctrl) = do
  d ← bus.devices me
  (stat, bus1, regs) ← write_reg_general bus addr d.base_address ctrl.regs
  if stat != stat_success
      then some (bus1, record ctrl { regs = regs })
      else some (bus1, record ctrl { regs = regs; device_base_status = 0 })

unfoldable pub irq_read_reg :
    ℕ → ℕ → BusController × IrqController → Option (BusController × IrqController)
irq_read_reg me addr (bus, ctrl) = do
  d ← bus.devices me
  (stat, bus1) ← read_reg_general bus addr d.base_address ctrl.regs
  some (bus1, ctrl)

-- `device_start` behind its wait: the bus access if the device is addressed, and the command.
unfoldable pub irq_device_start :
    ℕ → BusController × IrqController → Option (BusController × IrqController)
irq_device_start me (bus, ctrl) = do
  d ← bus.devices me
  w ←
      if device_address_in_range bus d
      then process_register_writing (irq_read_reg me) (irq_write_reg me) (bus, ctrl)
      else some (bus, ctrl)
  ctrl' ← device_start (w.1)
  some (w.0, ctrl')

-- WAIT_FOR_BUS_AND_EXTERNAL_IRQ_WAKE_UP and one round of `device_start`: a thread that is woken while the
-- bus asks for another device, and no device has raised an interrupt, waits on. The controller is
-- `none` behind what C leaves undefined.
unfoldable pub irq_thread : ℕ → World (Option IrqController) → World (Option IrqController)
irq_thread me (bus, none) = (bus, none)
irq_thread me (bus, some ctrl) = elim (bus.devices me) [
  | none ↦ (bus, some ctrl)
  | some d ↦
      if device_address_in_range bus d || is_set ctrl.external_irq_req
      then elim (irq_device_start me (bus, ctrl)) [
        | none ↦ (bus, none)
        | some (bus', ctrl') ↦ (bus', some ctrl')
      ]
      else (bus, some ctrl)
]

-- The device at position `me` is woken once when it is signalled, and no other thread does anything.
unfoldable pub irq_threads : ℕ → Option ℕ → List (Step IrqController)
irq_threads me none = []
irq_threads me (some k) = if k == me then irq_thread me ∷ [] else []

-- The device that `init_irq_controller` gives to the bus, as it is built with _EMU_MMIO_DEBUG, which
-- include/global.h defines
unfoldable pub init_irq_device : BusDevice
init_irq_device = record {
  base_address = 0xffff000a;
  vendor_id = 0x1003;
  need_space = irq_controller_device_regs;
  device_base_status = 0;
  irq_number = 0;
}
