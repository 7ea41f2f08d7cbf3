-- ===== src/Cpu/Irq.antt =====
-- `irq_call` of src/controllers/ecall.c: entering the handler of an external interrupt, over any bus.
-- A shift of the mode mask by 64 or more is `none`, since C leaves it undefined.
pub mod Enter
use wolf_cpuemulator.Common.{ℕ, ◌+◌, ◌*◌, flag, is_set, not, if◌then◌else◌, ltb, u16, u32, ◌>>◌}
use wolf_cpuemulator.Common.{Option, none, some, ◌&&&◌, ◌|||◌, ◌<<◌}
use wolf_cpuemulator.Endian.{get_int_from_4_bytes_l}
use wolf_cpuemulator.Cpu.State.{Cpu, is_in_kern_mode}
use wolf_cpuemulator.Cpu.Trap.{bcr_irq_disallow_mask, bcr_kern_mode_mask, ecall_single_item_length}
use wolf_cpuemulator.Cpu.Port.{Bus, BusSendData}

abbrev pub bus_irq_controller_device_base_addr : ℕ
bus_irq_controller_device_base_addr = 0xFFFF000A

abbrev irq_cmd_processing : ℕ
irq_cmd_processing = 7

-- The request that goes out to the interrupt controller, and its register of the answer
abbrev pub processing_request : BusSendData
processing_request = record {
  bytes = record { b0 = irq_cmd_processing; b1 = 0; b2 = 0; b3 = 0 };
  be = 1;
  status = 0;
  read_write = 0;
}

abbrev irq_controller_device_op_irqnum : ℕ
irq_controller_device_op_irqnum = 2

-- The exchange with the interrupt controller: `irqcode`
unfoldable pub ask_irqcode : {S : Type 0} → Bus S → S → ℕ × S
ask_irqcode bus s =
    let (status, s1) =
      bus.send_data (bus_irq_controller_device_base_addr + 0) processing_request s in
    let (recv_val, s2) =
      bus.recv_data (bus_irq_controller_device_base_addr + irq_controller_device_op_irqnum)
        processing_request s1 in
    (get_int_from_4_bytes_l recv_val.bytes &&& 0xff, s2)

unfoldable pub enter_irq : Cpu → ℕ → Cpu
enter_irq cpu irqcode =
    let bcr = cpu.spe_regs.bcr in
    let new_mode = cpu.irq_regs.mmode >> irqcode &&& 1 in
    record cpu {
      pc = u32 (cpu.irq_regs.mpc + irqcode * ecall_single_item_length);
      irq_regs = record (cpu.irq_regs) { mep = cpu.pc; mprevmode = flag (is_in_kern_mode bcr) };
      spe_regs = record (cpu.spe_regs) {
        bcr = u16 (bcr ||| (bcr_irq_disallow_mask ||| new_mode << bcr_kern_mode_mask));
      };
      external_irq = 0;
    }

unfoldable pub irq_call : {S : Type 0} → Bus S → Cpu → S → Option (Cpu × S)
unfolding ask_irqcode enter_irq
irq_call bus cpu s =
    if is_set (cpu.spe_regs.bcr &&& bcr_irq_disallow_mask)
    then some (cpu, s)
    else if not (is_set cpu.external_irq)
    then some (cpu, s)
    else let (irqcode, s') = ask_irqcode bus s in
      if ltb irqcode 64 then some (enter_irq cpu irqcode, s') else none
