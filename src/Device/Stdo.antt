-- ===== src/Device/Stdo.antt =====
-- src/mmio_devices/stdo_device.c: the device that prints characters.
use wolf_cpuemulator.Common.{
  ℕ, ◌==◌, if◌then◌else◌, Option, none, some, List, [], ◌∷◌, ◌++◌, get_or, set, replicate,
}
use wolf_cpuemulator.Common.Partial.{◌>>=◌}
use wolf_cpuemulator.Bus.{
  World, Step, BusController, BusDevice, set_status, bus_status_success, bus_status_error,
}
use wolf_cpuemulator.Device.{
  read_reg_general, write_reg_general, set_base_status, process_register_writing,
  device_address_in_range,
}

abbrev stdo_device_func_reg : ℕ
stdo_device_func_reg = 0

abbrev stdo_device_stat_reg : ℕ
stdo_device_stat_reg = 1

abbrev stdo_device_write_buf : ℕ
stdo_device_write_buf = 2

abbrev stdo_device_regs : ℕ
stdo_device_regs = 8

abbrev stdo_stat_ok : ℕ
stdo_stat_ok = 0

abbrev stdo_stat_busy : ℕ
stdo_stat_busy = 0xff

abbrev stdo_stat_error_unknown_cmd : ℕ
stdo_stat_error_unknown_cmd = 1

-- WOLF_MMIO_STDO_DEVICE, with the characters that were printed so far
pub record StdoDevice : Type 0 where
  pub regs : List ℕ
  pub printed : List ℕ

-- The device's record is the one at its position `me` of the bus.
unfoldable pub stdo_write_reg :
    ℕ → ℕ → BusController × StdoDevice → Option (BusController × StdoDevice)
unfolding set_status
stdo_write_reg me addr (bus, dev) = do
  d ← bus.devices me
  (stat, bus1, regs) ← write_reg_general bus addr d.base_address dev.regs
  if stat == 0
      then some
          (set_base_status (set_status bus1 bus_status_success) me d 1, record dev { regs = regs })
      else some
          (set_base_status (set_status bus1 bus_status_error) me d 0, record dev { regs = regs })

-- The status that a success leaves is overwritten: there is no `return` behind it.
unfoldable pub stdo_read_reg :
    ℕ → ℕ → BusController × StdoDevice → Option (BusController × StdoDevice)
unfolding set_status
stdo_read_reg me addr (bus, dev) = do
  d ← bus.devices me
  (stat, bus1) ← read_reg_general bus addr d.base_address dev.regs
  let bus2 = if stat == 0 then set_base_status (set_status bus1 bus_status_success) me d 1 else bus1
  some (set_status bus2 bus_status_error, dev)

unfoldable pub device_output : StdoDevice → ℕ → StdoDevice
device_output dev write_buf = record {
  regs = set dev.regs stdo_device_stat_reg stdo_stat_ok;
  printed = dev.printed ++ write_buf ∷ [];
}

-- The `switch` at the end of `device_start`, and its case 1
unfoldable pub print_buffer : StdoDevice → StdoDevice
unfolding device_output
print_buffer dev =
    let busy : StdoDevice = record dev {
      regs = set dev.regs stdo_device_stat_reg stdo_stat_busy;
    } in
    let done = device_output busy (get_or busy.regs stdo_device_write_buf 0) in
    record done { regs = set done.regs stdo_device_func_reg 0 }

unfoldable pub stdo_command : StdoDevice → StdoDevice
unfolding print_buffer
stdo_command dev =
    if get_or dev.regs stdo_device_func_reg 0 == 1
    then print_buffer dev
    else record dev { regs = set dev.regs stdo_device_stat_reg stdo_stat_error_unknown_cmd }

-- `device_start` behind its wait
unfoldable pub stdo_device_start :
    ℕ → BusController × StdoDevice → Option (BusController × StdoDevice)
stdo_device_start me w = process_register_writing (stdo_read_reg me) (stdo_write_reg me) w >>= λ r.
    some (r.0, stdo_command (r.1))

-- WAIT_FOR_BUS_WAKE_UP_COMMON_DEVICE and one round of `device_start`: a thread that is woken while
-- the bus asks for another device waits on. The device is `none` behind what C leaves undefined.
unfoldable pub stdo_thread : ℕ → World (Option StdoDevice) → World (Option StdoDevice)
stdo_thread me (bus, none) = (bus, none)
stdo_thread me (bus, some dev) = elim (bus.devices me) [
  | none ↦ (bus, some dev)
  | some d ↦
      if device_address_in_range bus d
      then elim (stdo_device_start me (bus, dev)) [
        | none ↦ (bus, none)
        | some (bus', dev') ↦ (bus', some dev')
      ]
      else (bus, some dev)
]

-- The device at position `me` is woken once when it is signalled, and no other thread does anything.
unfoldable pub stdo_threads : ℕ → Option ℕ → List (Step StdoDevice)
stdo_threads me none = []
stdo_threads me (some k) = if k == me then stdo_thread me ∷ [] else []

-- `init_stdo_device`, as it is built with _EMU_MMIO_DEBUG, which include/global.h defines
unfoldable pub init_stdo_device : BusDevice × StdoDevice
init_stdo_device = (
  record {
    base_address = 0xffff0000;
    vendor_id = 0x1001;
    need_space = stdo_device_regs;
    device_base_status = 0;
    irq_number = 0;
  },
  record { regs = replicate stdo_device_regs 0; printed = [] },
)
