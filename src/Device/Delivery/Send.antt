-- ===== src/Device/Delivery/Send.antt =====
-- The first half of the exchange: the command of `irq_call` and what the controller does with it.
use wolf_cpuemulator.Common.{
  ℕ, ◌≡◌, refl, [], ◌∷◌, some, none, true, false, u8, if◌then◌else◌, is_set, get_elem?, set,
}
use wolf_cpuemulator.Logic.Select.{mux8_if}
use wolf_cpuemulator.Endian.{bytes4_at, set_bytes4, copy_byte_4_array_selected_with_be}
use wolf_cpuemulator.Cpu.Irq.{processing_request, bus_irq_controller_device_base_addr}
use wolf_cpuemulator.Bus.{
  BusController, set_status, bus_send_data, wait_answer, run_steps, in_time, request, bus_rw_write,
}
use wolf_cpuemulator.Device.{
  write_reg_general, device_address_in_range, process_register_writing, reset_bus,
}
use wolf_cpuemulator.Device.Irq.{
  irq_write_reg, irq_device_start, irq_thread, irq_threads, init_irq_device,
}
use wolf_cpuemulator.IrqController.State.{InterruptDesc, IrqController, irq_max_prio, update_desc}
use wolf_cpuemulator.IrqController.Commands.{process, arbitrate, deliver}
use wolf_cpuemulator.IrqController.Device.{device_start, finish_command}
use wolf_cpuemulator.Device.Delivery.{
  controller_device, IsController, signalled_write, irq_threads_self, irq_thread-step,
}

module _ (r0 r1 r2 r3 r4 r5 r6 r7 : ℕ) where
  selected :
      copy_byte_4_array_selected_with_be
        (record { b0 = r0; b1 = r1; b2 = r2; b3 = r3 })
        processing_request.bytes
        1
      ≡ record { b0 = 7; b1 = u8 r1; b2 = u8 r2; b3 = u8 r3 }
  unfolding copy_byte_4_array_selected_with_be
  selected = rw (mux8_if true r0 7, mux8_if false r1 0, mux8_if false r2 0, mux8_if false r3 0)

  module _ (bus : BusController) (me : ℕ) (c : IsController bus me) (ctrl : IrqController) where
    abbrev asked : BusController
    asked = request bus bus_irq_controller_device_base_addr processing_request bus_rw_write

    abbrev pub before : IrqController
    before = record ctrl { regs = r0 ∷ r1 ∷ r2 ∷ r3 ∷ r4 ∷ r5 ∷ r6 ∷ r7 ∷ [] }

    -- The controller with the command in its registers
    abbrev commanded : IrqController
    commanded = record ctrl {
      regs = 7 ∷ u8 r1 ∷ u8 r2 ∷ u8 r3 ∷ r4 ∷ r5 ∷ r6 ∷ r7 ∷ [];
      device_base_status = 0;
    }

    at_controller : device_address_in_range asked controller_device ≡ true
    unfolding device_address_in_range request init_irq_device
    at_controller = refl

    write_round :
        irq_write_reg me (u8 bus_irq_controller_device_base_addr) (asked, before)
        ≡ some (set_status asked 0, commanded)
    unfolding irq_write_reg write_reg_general bytes4_at set_bytes4 request init_irq_device
    write_round = rw (c.registered, selected) refl

    module _ (k : ℕ) (e : InterruptDesc)
        (chosen : arbitrate ctrl.registered_interrupts 0 irq_max_prio none ≡ some k)
        (placed : get_elem? ctrl.registered_interrupts k ≡ some e) where
      -- The controller behind the command
      abbrev pub delivered : IrqController
      delivered = record ctrl {
        regs = 0 ∷ 0 ∷ u8 e.irq_num ∷ u8 r3 ∷ r4 ∷ r5 ∷ r6 ∷ r7 ∷ [];
        registered_interrupts = set ctrl.registered_interrupts k (record e { status = 2 });
        device_base_status = 0;
        external_irq_req = 0;
        external_irq = if is_set ctrl.int_valid_flag then 1 else ctrl.external_irq;
      }

      command_round : device_start commanded ≡ some delivered
      unfolding device_start process deliver update_desc finish_command
      command_round = rw (chosen, placed) refl

      abbrev pub sent : BusController
      sent = reset_bus (set_status asked 0)

      start_round : irq_device_start me (asked, before) ≡ some (sent, delivered)
      unfolding irq_device_start process_register_writing device_address_in_range request
          init_irq_device reset_bus
      start_round = rw (c.registered, write_round, command_round) refl

      thread_round : irq_thread me (asked, some before) ≡ (sent, some delivered)
      unfolding request
      thread_round = irq_thread-step me asked before c.registered at_controller start_round

      pub send_round :
          (bus_send_data
            (in_time (irq_threads me))
            bus_irq_controller_device_base_addr
            processing_request
            (bus, some before)).1
          ≡ (sent, some delivered)
      unfolding bus_send_data wait_answer run_steps reset_bus set_status
      send_round = rw (signalled_write bus me c, irq_threads_self me, thread_round) refl
