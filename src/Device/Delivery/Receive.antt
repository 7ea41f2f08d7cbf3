-- ===== src/Device/Delivery/Receive.antt =====
-- The second half of the exchange: the number of the interrupt is read from the controller.
use wolf_cpuemulator.Common.{ℕ, ◌+◌, ◌≡◌, refl, [], ◌∷◌, some, true, false, u8}
use wolf_cpuemulator.Logic.Select.{through8_if}
use wolf_cpuemulator.Endian.{bytes4_at, Bytes4, copy_byte_4_array_with_be}
use wolf_cpuemulator.Cpu.Irq.{processing_request, bus_irq_controller_device_base_addr}
use wolf_cpuemulator.Bus.{BusController, set_status, bus_recv_data, run_steps, request, bus_rw_read}
use wolf_cpuemulator.Device.{
  read_reg_general, device_address_in_range, process_register_writing, reset_bus,
}
use wolf_cpuemulator.Device.Irq.{
  irq_read_reg, irq_device_start, irq_thread, irq_threads, init_irq_device,
}
use wolf_cpuemulator.IrqController.State.{IrqController}
use wolf_cpuemulator.IrqController.Device.{device_start, finish_command}
use wolf_cpuemulator.Device.Delivery.{
  controller_device, IsController, signalled_read, irq_threads_self, irq_thread-step,
}

module _ (s1 s2 s3 s4 s5 s6 s7 : ℕ) where
  abbrev pub first_byte : Bytes4
  first_byte = record { b0 = u8 s2; b1 = 0; b2 = 0; b3 = 0 }

  masked : copy_byte_4_array_with_be (record { b0 = s2; b1 = s3; b2 = s4; b3 = s5 }) 1 ≡ first_byte
  unfolding copy_byte_4_array_with_be
  masked =
      rw (through8_if true s2, through8_if false s3, through8_if false s4, through8_if false s5)

  module _ (bus : BusController) (me : ℕ) (c : IsController bus me) (ctrl : IrqController) where
    abbrev asked_to_read : BusController
    asked_to_read =
        request bus (bus_irq_controller_device_base_addr + 2) processing_request bus_rw_read

    -- The controller between two commands
    abbrev pub idle : IrqController
    idle = record ctrl { regs = 0 ∷ s1 ∷ s2 ∷ s3 ∷ s4 ∷ s5 ∷ s6 ∷ s7 ∷ [] }

    abbrev read : BusController
    read = record asked_to_read {
      data_cmd_collection = record {
        bytes = first_byte;
        be = 1;
        status = 0;
        read_write = bus_rw_read;
      };
    }

    read_round :
        irq_read_reg me (u8 (bus_irq_controller_device_base_addr + 2)) (asked_to_read, idle)
        ≡ some (read, idle)
    unfolding irq_read_reg read_reg_general bytes4_at request init_irq_device set_status
    read_round = rw (c.registered, masked) refl

    idle_round : device_start idle ≡ some (finish_command idle)
    unfolding device_start
    idle_round = refl

    at_result : device_address_in_range asked_to_read controller_device ≡ true
    unfolding device_address_in_range request init_irq_device
    at_result = refl

    read_start :
        irq_device_start me (asked_to_read, idle) ≡ some (reset_bus read, finish_command idle)
    unfolding irq_device_start process_register_writing device_address_in_range request
        init_irq_device
    read_start = rw (c.registered, read_round, idle_round) refl

    read_thread :
        irq_thread me (asked_to_read, some idle) ≡ (reset_bus read, some (finish_command idle))
    unfolding request
    read_thread = irq_thread-step me asked_to_read idle c.registered at_result read_start

    pub recv_round :
        let (answer, (bus', ctrl')) =
          bus_recv_data
            (irq_threads me)
            (bus_irq_controller_device_base_addr + 2)
            processing_request
            (bus, some idle) in
        (answer.bytes ≡ first_byte)
        × (bus'.devices ≡ bus.devices)
        × (bus'.addr ≡ 0)
        × (ctrl' ≡ some (finish_command idle))
    unfolding bus_recv_data run_steps reset_bus set_status request
    recv_round =
        rw (signalled_read bus me c, irq_threads_self me, read_thread) (refl, refl, refl, refl)

-- A read that ends before the controller's thread does anything gives back the request.
pub recv_late :
    (bus : BusController) (ctrl : IrqController)
    → let (answer, (bus', ctrl')) =
        bus_recv_data
          (λ _. [])
          (bus_irq_controller_device_base_addr + 2)
          processing_request
          (bus, some ctrl) in
      (answer.bytes ≡ processing_request.bytes)
      × (bus'.addr ≡ bus_irq_controller_device_base_addr + 2)
      × (ctrl' ≡ some ctrl)
unfolding bus_recv_data run_steps set_status request
recv_late bus ctrl = (refl, refl, refl)
