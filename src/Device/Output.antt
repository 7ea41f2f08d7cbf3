-- ===== src/Device/Output.antt =====
-- A request of the CPU to the output device, through src/controllers/bus.c and
-- src/mmio_devices/stdo_device.c.
use wolf_cpuemulator.Common.{
  ℕ, suc, ◌+◌, ◌^◌, ◌≤◌, ◌<◌, ◌≡◌, refl, arith, List, [], ◌∷◌, ◌++◌, some, Option, true, u8, sub32,
  ◌==◌, if◌then◌else◌, leb_iff,
}
use wolf_cpuemulator.Logic.Select.{mux8_if}
use wolf_cpuemulator.Endian.{
  bytes4_at, set_bytes4, Bytes4, copy_byte_4_array_with_be, copy_byte_4_array_selected_with_be,
}
use wolf_cpuemulator.Cpu.Port.{BusSendData}
use wolf_cpuemulator.Bus.{
  BusController, BusDevice, signalled, is_addressed, set_status, bus_status_success, bus_send_data,
  bus_recv_data, bus_status_error, bus_status_timeout, wait_answer, run_steps, in_time, request,
  max_bus_device, bus_rw_write, bus_rw_read, bus_status_pending,
}
use wolf_cpuemulator.Device.{
  read_reg_general, write_reg_general, base_mmio_addr, device_address_in_range,
  process_register_writing, reset_bus, set_base_status,
}
use wolf_cpuemulator.Device.Registers.{read_register}
use wolf_cpuemulator.Device.Stdo.{
  StdoDevice, stdo_write_reg, stdo_read_reg, stdo_command, print_buffer, device_output,
  stdo_device_start, stdo_thread, stdo_threads,
}

signalled_here :
    (devices : ℕ → Option BusDevice) (addr i left : ℕ)
    → is_addressed addr (devices i) ≡ true
    → signalled devices addr i (suc left) ≡ some i
unfolding signalled
signalled_here devices addr i left h = rw h

-- The first device of the bus has its registers in the range of devices.
pub record IsFirst (bus : BusController) (d : BusDevice) : Type 0 where
  pub registered : bus.devices 0 ≡ some d
  pub from : base_mmio_addr ≤ d.base_address
  pub upto : d.base_address + 8 < 2 ^ 32
  pub eight : d.need_space ≡ 8

addressed :
    (bus : BusController) (d : BusDevice)
    → IsFirst bus d
    → is_addressed d.base_address (bus.devices 0) ≡ true
unfolding is_addressed
addressed bus d f =
    rw (f.registered, f.eight) (ground (arith, f.upto, leb_iff d.base_address d.base_address))

first_signalled :
    (bus : BusController) (d : BusDevice)
    → IsFirst bus d
    → signalled (bus.devices) (d.base_address) 0 max_bus_device ≡ some 0
first_signalled bus d f = signalled_here (bus.devices) (d.base_address) 0 255 (addressed bus d f)

in_range :
    (bus : BusController) (d : BusDevice) (data' : BusSendData) (rw' : ℕ)
    → IsFirst bus d
    → device_address_in_range (request bus (d.base_address) data' rw') d ≡ true
unfolding device_address_in_range request
in_range bus d data' rw' f = rw f.eight (ground (arith, f.upto, f.from))

offset_zero : (base : ℕ) → base < 2 ^ 32 → u8 (sub32 (u8 base) (u8 base)) ≡ 0
offset_zero base h = omega arith

offset_self : (base : ℕ) → base < 2 ^ 32 → u8 (sub32 base base) ≡ 0
offset_self base h = omega arith

stdo_thread-step :
    (bus : BusController) (d : BusDevice) (dev : StdoDevice) {bus' : BusController}
    {dev' : StdoDevice}
    → bus.devices 0 ≡ some d
    → device_address_in_range bus d ≡ true
    → stdo_device_start 0 (bus, dev) ≡ some (bus', dev')
    → stdo_thread 0 (bus, some dev) ≡ (bus', some dev')
unfolding stdo_thread
stdo_thread-step bus d dev registered here starts = rw (registered, here, starts)

read_start :
    (bus : BusController) (dev : StdoDevice) {bus' : BusController}
    → (bus.data_cmd_collection.read_write == bus_rw_read) ≡ true
    → stdo_read_reg 0 (u8 bus.addr) (bus, dev) ≡ some (bus', dev)
    → stdo_device_start 0 (bus, dev) ≡ some (reset_bus bus', stdo_command dev)
unfolding stdo_device_start process_register_writing
read_start bus dev reads e = rw (reads, e)

module _ (r0 r1 r2 r3 r4 r5 r6 r7 : ℕ) where
  abbrev pub regs8 : List ℕ
  regs8 = r0 ∷ r1 ∷ r2 ∷ r3 ∷ r4 ∷ r5 ∷ r6 ∷ r7 ∷ []

  -- What the device holds and has printed after a word was written to its first four registers.
  unfoldable pub written : Bytes4 → List ℕ → StdoDevice
  written v printed =
      if u8 v.b0 == 1
      then record {
        regs = 0 ∷ 0 ∷ u8 v.b2 ∷ u8 v.b3 ∷ r4 ∷ r5 ∷ r6 ∷ r7 ∷ [];
        printed = printed ++ u8 v.b2 ∷ [];
      }
      else record {
        regs = u8 v.b0 ∷ 1 ∷ u8 v.b2 ∷ u8 v.b3 ∷ r4 ∷ r5 ∷ r6 ∷ r7 ∷ [];
        printed = printed;
      }

  selected :
      (v old : Bytes4)
      → copy_byte_4_array_selected_with_be old v 15
        ≡ record { b0 = u8 v.b0; b1 = u8 v.b1; b2 = u8 v.b2; b3 = u8 v.b3 }
  unfolding copy_byte_4_array_selected_with_be
  selected v old = rw (
    mux8_if true old.b0 v.b0,
    mux8_if true old.b1 v.b1,
    mux8_if true old.b2 v.b2,
    mux8_if true old.b3 v.b3,
  )

  abbrev after_write : BusController → BusDevice → BusController
  after_write bus d = set_base_status (set_status (set_status bus 0) 0) 0 d 1

  write_round :
      (bus : BusController) (d : BusDevice) (v : Bytes4) (rw' stat : ℕ) (printed : List ℕ)
      → bus.devices 0 ≡ some d
      → d.base_address < 2 ^ 32
      → bus.data_cmd_collection ≡ record { bytes = v; be = 15; status = stat; read_write = rw' }
      → stdo_write_reg 0 (u8 d.base_address) (bus, record { regs = regs8; printed = printed })
        ≡ some (
          after_write bus d,
          record {
            regs = u8 v.b0 ∷ u8 v.b1 ∷ u8 v.b2 ∷ u8 v.b3 ∷ r4 ∷ r5 ∷ r6 ∷ r7 ∷ [];
            printed = printed;
          },
        )
  unfolding stdo_write_reg write_reg_general bytes4_at set_bytes4
  write_round bus d v rw' stat printed reg lt col = rw (
    reg,
    col,
    offset_zero (d.base_address) lt,
    selected v (record { b0 = r0; b1 = r1; b2 = r2; b3 = r3 }),
  )

  command_round :
      (v : Bytes4) (printed : List ℕ)
      → stdo_command (record {
        regs = u8 v.b0 ∷ u8 v.b1 ∷ u8 v.b2 ∷ u8 v.b3 ∷ r4 ∷ r5 ∷ r6 ∷ r7 ∷ [];
        printed = printed;
      })
        ≡ written v printed
  unfolding stdo_command print_buffer device_output written
  command_round v printed = ground arith

  start_round :
      (bus : BusController) (d : BusDevice) (v : Bytes4) (stat : ℕ) (printed : List ℕ)
      → IsFirst bus d
      → let asked =
          request bus d.base_address
            (record { bytes = v; be = 15; status = stat; read_write = bus_rw_write })
            bus_rw_write in
        stdo_device_start 0 (asked, record { regs = regs8; printed = printed })
        ≡ some (reset_bus (after_write asked d), written v printed)
  unfolding stdo_device_start process_register_writing request reset_bus
  start_round bus d v stat printed f =
      let asked =
        request bus (d.base_address)
          (record { bytes = v; be = 15; status = stat; read_write = bus_rw_write }) bus_rw_write in
      rw (
        write_round asked d v bus_rw_write bus_status_pending printed f.registered
            (omega (arith, f.upto)) refl,
        command_round v printed,
      )

  thread_round :
      (bus : BusController) (d : BusDevice) (v : Bytes4) (stat : ℕ) (printed : List ℕ)
      → IsFirst bus d
      → let asked =
          request bus d.base_address
            (record { bytes = v; be = 15; status = stat; read_write = bus_rw_write })
            bus_rw_write in
        stdo_thread 0 (asked, some (record { regs = regs8; printed = printed }))
        ≡ (reset_bus (after_write asked d), some (written v printed))
  unfolding request
  thread_round bus d v stat printed f =
      let asked =
        request bus (d.base_address)
          (record { bytes = v; be = 15; status = stat; read_write = bus_rw_write }) bus_rw_write in
      stdo_thread-step asked d (record { regs = regs8; printed = printed }) (f.registered)
        (in_range bus d (record { bytes = v; be = 15; status = stat; read_write = bus_rw_write })
          bus_rw_write f)
        (start_round bus d v stat printed f)

  -- The CPU writes four bytes, all enabled, to the first registers of an output device that stands
  -- first on the bus, has 8 registers in the range of devices, and whose thread makes its round
  -- within the wait, the deadline of which is a time. The exchange ends with success and with the address of the bus cleared; the device has
  -- printed the third byte if the first one is the command 1, and nothing otherwise. Its command
  -- register is then cleared, and its status register says that all is well, or else that the command
  -- is unknown; the other registers are as the write left them.
  pub bus_send_data-stdo_threads :
      (bus : BusController) (d : BusDevice) (v : Bytes4) (stat : ℕ) (printed : List ℕ)
      → IsFirst bus d
      → (bus' : BusController) × (bus_send_data
            (in_time (stdo_threads 0))
            d.base_address
            (record { bytes = v; be = 15; status = stat; read_write = bus_rw_write })
            (bus, some (record { regs = regs8; printed = printed }))
          ≡ (bus_status_success, (bus', some (written v printed))))
        × (bus'.addr ≡ 0)
  unfolding bus_send_data stdo_threads wait_answer run_steps reset_bus set_base_status set_status
  bus_send_data-stdo_threads bus d v stat printed f =
      let asked =
        request bus (d.base_address)
          (record { bytes = v; be = 15; status = stat; read_write = bus_rw_write }) bus_rw_write in
      (
        reset_bus (after_write asked d),
        rw (first_signalled bus d f, thread_round bus d v stat printed f),
        refl,
      )

  abbrev asked_to_read : BusController → BusDevice → Bytes4 → ℕ → ℕ → BusController
  asked_to_read bus d v be stat =
      request bus d.base_address
        (record { bytes = v; be = be; status = stat; read_write = bus_rw_read }) bus_rw_read

  abbrev pub answer : Bytes4 → ℕ → ℕ → BusSendData
  answer v be stat = record {
    bytes = copy_byte_4_array_with_be (record { b0 = r0; b1 = r1; b2 = r2; b3 = r3 }) be;
    be = be;
    status = stat;
    read_write = bus_rw_read;
  }

  read_round :
      (bus : BusController) (d : BusDevice) (v : Bytes4) (be stat : ℕ) (printed : List ℕ)
      → IsFirst bus d
      → (bus' : BusController) × (stdo_read_reg 0
            (u8 d.base_address)
            (asked_to_read bus d v be stat, record { regs = regs8; printed = printed })
          ≡ some (bus', record { regs = regs8; printed = printed }))
        × (bus'.data_cmd_collection ≡ answer v be bus_status_error)
  unfolding stdo_read_reg read_reg_general bytes4_at request set_status set_base_status
  read_round bus d v be stat printed f =
      let asked = asked_to_read bus d v be stat in
      let read : BusController = record asked {
        data_cmd_collection = answer v be bus_status_success;
      } in
      (
        set_status (set_base_status read 0 d 1) bus_status_error,
        rw (
          f.registered,
          read_register d.base_address d.base_address (omega (arith, f.upto))
              (omega (arith, f.upto)),
          offset_self d.base_address (omega (arith, f.upto)),
        ),
        refl,
      )

  -- The CPU reads the first four registers of a device that stands first on the bus and has 8 registers
  -- in the range of devices, at the device's base address. If the device's thread makes a whole round by
  -- the time that the wait ends, the answer has the bytes that the byte enables select and zero for the
  -- others, its status is an error, whatever is read, the address of the bus is cleared, and the device
  -- has run its command once more. If the thread does nothing by then, the answer is the request's own
  -- bytes with the status of the timeout, and the device is as before.
  pub bus_recv_data-stdo_threads :
      (bus : BusController) (d : BusDevice) (v : Bytes4) (be stat : ℕ) (printed : List ℕ)
      → IsFirst bus d
      → (bus' : BusController) × (bus_recv_data
            (stdo_threads 0)
            d.base_address
            (record { bytes = v; be = be; status = stat; read_write = bus_rw_read })
            (bus, some (record { regs = regs8; printed = printed }))
          ≡ (
            answer v be bus_status_error,
            (bus', some (stdo_command (record { regs = regs8; printed = printed }))),
          ))
        × (bus'.addr ≡ 0)
        × (bus_recv_data {D = StdoDevice}
              (λ _. [])
              d.base_address
              (record { bytes = v; be = be; status = stat; read_write = bus_rw_read })
              (bus, some (record { regs = regs8; printed = printed }))
            ≡ (
              record { bytes = v; be = be; status = bus_status_timeout; read_write = bus_rw_read },
              (
                set_status (asked_to_read bus d v be stat) bus_status_timeout,
                some (record { regs = regs8; printed = printed }),
              ),
            ))
  unfolding bus_recv_data stdo_threads run_steps reset_bus set_status request
  bus_recv_data-stdo_threads bus d v be stat printed f =
      let asked = asked_to_read bus d v be stat in
      let data' : BusSendData = record {
        bytes = v;
        be = be;
        status = stat;
        read_write = bus_rw_read;
      } in
      let dev : StdoDevice = record { regs = regs8; printed = printed } in
      let (bus', e, col) = read_round bus d v be stat printed f in
      (
        set_status (reset_bus bus') bus_status_success,
        rw (
          first_signalled bus d f,
          stdo_thread-step asked d dev {bus' = reset_bus bus'} {dev' = stdo_command dev}
              (f.registered) (in_range bus d data' bus_rw_read f) (read_start asked dev refl e),
          col,
        ),
        refl,
        refl,
      )
