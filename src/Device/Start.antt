-- ===== src/Device/Start.antt =====
-- src/mmio_devices/device_init.c: the devices that stand on the bus when the machine starts. Their
-- threads are not created here.
use wolf_cpuemulator.Bus.{BusController, register_device}
use wolf_cpuemulator.IrqController.State.{IrqController}
use wolf_cpuemulator.IrqController.Device.{init_irq_controller}
use wolf_cpuemulator.Device.Stdo.{StdoDevice, init_stdo_device}
use wolf_cpuemulator.Device.Clock.{ClockDevice, init_clock_device}
use wolf_cpuemulator.Device.Irq.{init_irq_device}

-- The devices behind the bus
pub record Devices : Type 0 where
  pub stdo : StdoDevice
  pub irq : IrqController
  pub clock : ClockDevice

-- `init_devices` where every allocation succeeds
unfoldable pub init_devices : BusController → BusController × Devices
unfolding register_device init_stdo_device init_irq_controller init_irq_device init_clock_device
init_devices bus =
    let bus1 = register_device bus (init_stdo_device.0) 0 in
    let bus2 = register_device bus1 init_irq_device 1 in
    let bus3 = register_device bus2 (init_clock_device.0) 2 in
    (
      bus3,
      record { stdo = init_stdo_device.1; irq = init_irq_controller; clock = init_clock_device.1 },
    )
