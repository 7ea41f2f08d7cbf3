-- ===== src/Device.antt =====
-- src/mmio_devices/device_tools.c and its header: how a device's thread answers a request that lies on
-- the bus. An access always touches four registers, also where its byte enables select fewer: one
-- that reaches past the array of registers is `none`, since C leaves it undefined.
pub mod Registers
pub mod Stdo
pub mod Clock
pub mod Irq
pub mod Start
pub mod Output
pub mod Delivery
use wolf_cpuemulator.Common.{
  ℕ, ◌+◌, ◌^◌, ◌%◌, ◌-◌, Bool, ◌==◌, ◌&&◌, ltb, leb, if◌then◌else◌, Option, none, some, List,
  get_elem?, set, u8, u32, sub32,
}
use wolf_cpuemulator.Common.Partial.{◌>>=◌}
use wolf_cpuemulator.Endian.{bytes4_at, set_bytes4}
use wolf_cpuemulator.Endian.{Bytes4, copy_byte_4_array_with_be, copy_byte_4_array_selected_with_be}
use wolf_cpuemulator.Bus.{
  BusController, BusDevice, set_status, bus_status_success, bus_rw_read, bus_rw_write,
}

abbrev pub base_mmio_addr : ℕ
base_mmio_addr = 0xffff0000

abbrev pub stat_success : ℕ
stat_success = 0

-- Its result is the value that the C function returns, and the bus.
unfoldable pub read_reg_general : BusController → ℕ → ℕ → List ℕ → Option (ℕ × BusController)
unfolding set_status
read_reg_general bus addr base_address regs =
    let collection = bus.data_cmd_collection in
    let rel_addr = u8 (sub32 addr base_address) in
    bytes4_at regs rel_addr >>= λ tar.
    let bus' : BusController = record bus {
      data_cmd_collection = record collection {
        bytes = copy_byte_4_array_with_be tar (collection.be);
      };
    } in
    some (stat_success, set_status bus' bus_status_success)

-- The base address is cut to 8 bits by the parameter's type.
unfoldable pub write_reg_general :
    BusController → ℕ → ℕ → List ℕ → Option (ℕ × BusController × List ℕ)
unfolding set_status
write_reg_general bus addr base_address regs =
    let collection = bus.data_cmd_collection in
    let rel_addr = u8 (sub32 addr (u8 base_address)) in
    bytes4_at regs rel_addr >>= λ ori.
    let new = copy_byte_4_array_selected_with_be ori (collection.bytes) (collection.be) in
    some (stat_success, set_status bus bus_status_success, set_bytes4 regs rel_addr new)

unfoldable pub reset_bus : BusController → BusController
reset_bus bus = record bus { addr = 0 }

-- DEVICE_ADDRESS_IN_RANGE
unfoldable pub device_address_in_range : BusController → BusDevice → Bool
device_address_in_range bus d =
    leb base_mmio_addr bus.addr
    && ltb bus.addr (u32 (d.base_address + d.need_space))
    && leb d.base_address bus.addr

-- `device_base_status` of the device at a position of the bus
unfoldable pub set_base_status : BusController → ℕ → BusDevice → ℕ → BusController
set_base_status bus me d v = record bus {
  devices = λ i. if i == me then some (record d { device_base_status = v }) else bus.devices i;
}

-- PROCESS_DEVICE_REGISTER_WRITING for a device whose two functions take the address, cut to 8 bits by
-- their parameter's type, and the state of the bus and the device.
unfoldable pub process_register_writing :
    {D : Type 0} (read_reg write_reg : ℕ → BusController × D → Option (BusController × D))
    → BusController × D
    → Option (BusController × D)
unfolding reset_bus
process_register_writing read_reg write_reg (bus, dev) =
    let rw = bus.data_cmd_collection.read_write in
    (if rw == bus_rw_read
      then read_reg (u8 bus.addr) (bus, dev)
      else if rw == bus_rw_write
      then write_reg (u8 bus.addr) (bus, dev)
      else some (bus, dev))
    >>= λ r. some (reset_bus r.0, r.1)
