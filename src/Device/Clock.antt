-- ===== src/Device/Clock.antt =====
-- src/mmio_devices/clock_device.c: the device that raises an interrupt in every round of its thread.
-- Its waits are left out.
use wolf_cpuemulator.Common.{ℕ, ◌==◌, if◌then◌else◌, Option, some, List, replicate}
use wolf_cpuemulator.Common.Partial.{◌>>=◌}
use wolf_cpuemulator.Bus.{
  BusController, BusDevice, set_status, bus_status_success, bus_status_error,
}
use wolf_cpuemulator.Device.{
  read_reg_general, write_reg_general, set_base_status, process_register_writing,
  device_address_in_range,
}
use wolf_cpuemulator.IrqController.State.{IrqController}
use wolf_cpuemulator.IrqController.Device.{irq_trigger}

abbrev clock_device_regs : ℕ
clock_device_regs = 4

-- WOLF_MMIO_CLOCK_DEVICE
pub record ClockDevice : Type 0 where
  pub regs : List ℕ

unfoldable clock_write_reg :
    ℕ → ℕ → BusController × ClockDevice → Option (BusController × ClockDevice)
unfolding set_status
clock_write_reg me addr (bus, dev) = do
  d ← bus.devices me
  (stat, bus1, regs) ← write_reg_general bus addr d.base_address dev.regs
  if stat == 0
      then some
          (set_base_status (set_status bus1 bus_status_success) me d 1, record dev { regs = regs })
      else some
          (set_base_status (set_status bus1 bus_status_error) me d 0, record dev { regs = regs })

-- As in the output device, the status of a success is overwritten. The lock that is then released a
-- second time is left out.
unfoldable clock_read_reg :
    ℕ → ℕ → BusController × ClockDevice → Option (BusController × ClockDevice)
unfolding set_status
clock_read_reg me addr (bus, dev) = do
  d ← bus.devices me
  (stat, bus1) ← read_reg_general bus addr d.base_address dev.regs
  let bus2 = if stat == 0 then set_base_status (set_status bus1 bus_status_success) me d 1 else bus1
  some (set_status bus2 bus_status_error, dev)

-- `device_start`: the bus access if the device is addressed, and the interrupt. The register that
-- should switch the clock on only shortens a wait.
unfoldable clock_device_start :
    ℕ
    → BusController × ClockDevice
    → IrqController
    → Option ((BusController × ClockDevice) × IrqController)
clock_device_start me (bus, dev) irq = do
  d ← bus.devices me
  w ←
      if device_address_in_range bus d
      then process_register_writing (clock_read_reg me) (clock_write_reg me) (bus, dev)
      else some (bus, dev)
  irq' ← irq_trigger irq d.irq_number d.vendor_id
  some (w, irq')

-- `init_clock_device`, as it is built with _EMU_MMIO_DEBUG, which include/global.h defines
unfoldable pub init_clock_device : BusDevice × ClockDevice
init_clock_device = (
  record {
    base_address = 0xffff00f0;
    vendor_id = 0x1004;
    need_space = clock_device_regs;
    device_base_status = 0;
    irq_number = 7;
  },
  record { regs = replicate clock_device_regs 0 },
)
