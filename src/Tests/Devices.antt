-- ===== src/Tests/Devices.antt =====
-- The theorems on the bus, its devices and the MMU at concrete inputs.
use wolf_cpuemulator.Common.{
  ℕ, ◌≡◌, refl, arith, List, [], some, none, Option, replicate, u8, sub32, ◌==◌, if◌then◌else◌,
}
use wolf_cpuemulator.Endian.{
  Bytes4, bytes4_at, copy_byte_4_array_with_be, copy_byte_4_array_selected_with_be,
}
use wolf_cpuemulator.Cpu.Port.{BusSendData}
use wolf_cpuemulator.Bus.{
  World, Schedule, in_time, BusController, BusDevice, bus_send_data, bus_recv_data, request,
  init_bus, set_status, bus_status_success, bus_status_timeout, bus_status_error, bus_rw_write,
  bus_rw_read,
}
use wolf_cpuemulator.Device.{read_reg_general, write_reg_general, stat_success}
use wolf_cpuemulator.Device.Registers.{read_reg_general-write_reg_general}
use wolf_cpuemulator.Device.Stdo.{StdoDevice, stdo_threads, stdo_command}
use wolf_cpuemulator.Device.Output.{
  IsFirst, written, answer, regs8, bus_send_data-stdo_threads, bus_recv_data-stdo_threads,
}

abbrev output_device : BusDevice
output_device = record {
  base_address = 0xffff0000;
  vendor_id = 0x1001;
  need_space = 8;
  device_base_status = 0;
  irq_number = 0;
}

-- The bus with the output device in its first place
abbrev output_bus : BusController
output_bus = record init_bus { devices = λ i. if i == 0 then some output_device else none }

-- The letter A, with the command to print it
abbrev letter : Bytes4
letter = record { b0 = 1; b1 = 0; b2 = 65; b3 = 0 }

abbrev print_request : BusSendData
print_request = record { bytes = letter; be = 15; status = 0; read_write = bus_rw_write }

abbrev blank : StdoDevice
blank = record { regs = replicate 8 0; printed = [] }

-- The output device, which answers in time
abbrev answering : Option ℕ → Schedule StdoDevice
answering = in_time (stdo_threads 0)

abbrev at_printer : World (Option StdoDevice)
at_printer = (output_bus, some blank)

abbrev writing : BusController
writing = record init_bus { data_cmd_collection = print_request }

read_reg_general-write_reg_general_example :
    (old : Bytes4) × (regs' : List ℕ) × (bytes4_at
        (replicate 8 7)
        (u8 (sub32 0xffff0002 0xffff0000))
      ≡ some old)
    × (write_reg_general writing (u8 0xffff0002) 0xffff0000 (replicate 8 7)
        ≡ some (stat_success, set_status writing bus_status_success, regs'))
    × (read_reg_general writing (u8 0xffff0002) 0xffff0000 regs'
        ≡ some (
          stat_success,
          record writing {
            data_cmd_collection = record print_request {
              bytes =
                  copy_byte_4_array_with_be (copy_byte_4_array_selected_with_be old letter 15) 15;
              status = bus_status_success;
            };
          },
        ))
read_reg_general-write_reg_general_example =
    read_reg_general-write_reg_general writing writing 0xffff0002 0xffff0000 (replicate 8 7)
      (omega arith) (omega arith) (omega arith)

output_bus-IsFirst : IsFirst output_bus output_device
output_bus-IsFirst = record {
  registered = refl;
  from = omega arith;
  upto = omega arith;
  eight = refl;
}

bus_send_data-stdo_threads_example :
    (bus' : BusController) × (bus_send_data answering 0xffff0000 print_request
        (output_bus, some blank)
      ≡ (bus_status_success, (bus', some (written 0 0 0 0 0 0 0 0 letter []))))
    × (bus'.addr ≡ 0)
bus_send_data-stdo_threads_example =
    bus_send_data-stdo_threads 0 0 0 0 0 0 0 0 output_bus output_device letter 0 []
      output_bus-IsFirst

bus_recv_data-stdo_threads_example :
    (bus' : BusController) × (bus_recv_data
        (stdo_threads 0)
        0xffff0000
        (record { bytes = letter; be = 15; status = 0; read_write = bus_rw_read })
        (output_bus, some blank)
      ≡ (
        answer 0 0 0 0 0 0 0 0 letter 15 bus_status_error,
        (bus', some (stdo_command (record { regs = regs8 0 0 0 0 0 0 0 0; printed = [] }))),
      ))
    × (bus'.addr ≡ 0)
    × (bus_recv_data {D = StdoDevice}
          (λ _. [])
          0xffff0000
          (record { bytes = letter; be = 15; status = 0; read_write = bus_rw_read })
          (output_bus, some blank)
        ≡ (
          record { bytes = letter; be = 15; status = bus_status_timeout; read_write = bus_rw_read },
          (
            set_status
                (request output_bus 0xffff0000
                  (record { bytes = letter; be = 15; status = 0; read_write = bus_rw_read })
                  bus_rw_read)
                bus_status_timeout,
            some blank,
          ),
        ))
bus_recv_data-stdo_threads_example =
    bus_recv_data-stdo_threads 0 0 0 0 0 0 0 0 output_bus output_device letter 15 0 []
      output_bus-IsFirst
