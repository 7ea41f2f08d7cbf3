-- ===== src/IrqController/Device.antt =====
-- src/mmio_devices/irq_controller.c: what the device does when it is woken or triggered, and its start.
-- Each function is one step under the device's lock; the waiting is left out.
use wolf_cpuemulator.Common.{ℕ, zero, suc, ◌+◌, ◌==◌, is_set}
use wolf_cpuemulator.Common.{if◌then◌else◌, Option, some, List, [], ◌∷◌, get_elem?, get_or, set}
use wolf_cpuemulator.Common.{replicate}
use wolf_cpuemulator.Common.Partial.{◌>>=◌}
use wolf_cpuemulator.IrqController.State.{
  func_reg_addr, op_irqnum, prio_set, irq_max_prio, irq_interrupts_sum, irq_controller_device_regs,
  irq_status_okay, irq_status_suspend, irq_not_ignored, InterruptDesc, IrqController, update_desc,
  set_valid,
}
use wolf_cpuemulator.IrqController.Commands.{
  set_irq_disable, set_irq_enable, set_irq_ignore, clear_irq_ignore, set_interrupt_ok, set_priority,
  process,
}

-- The commands of the function register.
pub data Command : Type 0 where
  set_ignore clear_ignore disable enable process_ok priority processing other : Command

unfoldable pub decode_command : ℕ → Command
decode_command cmd =
    if cmd == 1
    then set_ignore
    else if cmd == 2
    then clear_ignore
    else if cmd == 3
    then disable
    else if cmd == 4
    then enable
    else if cmd == 5
    then process_ok
    else if cmd == 6
    then priority
    else if cmd == 7
    then processing
    else other

unfoldable pub run_command : IrqController → Command → ℕ → Option IrqController
run_command ctrl set_ignore irq_num = set_irq_ignore ctrl irq_num
run_command ctrl clear_ignore irq_num = clear_irq_ignore ctrl irq_num
run_command ctrl disable irq_num = set_irq_disable ctrl irq_num
run_command ctrl enable irq_num = set_irq_enable ctrl irq_num
run_command ctrl process_ok irq_num = set_interrupt_ok ctrl irq_num
run_command ctrl priority irq_num = set_priority ctrl irq_num (get_or ctrl.regs prio_set 0)
run_command ctrl processing irq_num = process ctrl
run_command ctrl other irq_num = some ctrl

-- The end of `device_start`: the CPU is told of a valid interrupt, and the command is cleared.
unfoldable pub finish_command : IrqController → IrqController
finish_command ctrl = record ctrl {
  external_irq = if is_set ctrl.int_valid_flag then 1 else ctrl.external_irq;
  external_irq_req = 0;
  regs = set ctrl.regs func_reg_addr 0;
}

-- `device_start` behind the bus access: the `switch` on the command and what follows.
unfoldable pub device_start : IrqController → Option IrqController
unfolding decode_command run_command finish_command
device_start ctrl =
    let cmd = get_or ctrl.regs func_reg_addr 0 in
    let irq_num = get_or ctrl.regs op_irqnum 0 in
    run_command ctrl (decode_command cmd) irq_num >>= λ ctrl'. some (finish_command ctrl')

-- `irq_trigger` for a device of the given number and vendor.
unfoldable pub raise : IrqController → ℕ → ℕ → Option IrqController
unfolding update_desc set_valid
raise ctrl irq_number vendor_id = do
  ctrl1 ← update_desc ctrl irq_number (λ e. record e {
    prio = if vendor_id == 0x1004 then 1 else e.prio;
    status = irq_status_suspend;
  })
  ctrl2 ← set_valid ctrl1 irq_number
  some (record ctrl2 { external_irq_req = 1 })

unfoldable pub irq_trigger : IrqController → ℕ → ℕ → Option IrqController
unfolding raise
irq_trigger ctrl irq_number vendor_id = do
  d ← get_elem? ctrl.registered_interrupts irq_number
  if is_set d.enabled then raise ctrl irq_number vendor_id else some ctrl

-- `init_irq_controller`: the loop over the descriptors, `left` of them from number `i` on.
unfoldable pub init_descs : ℕ → ℕ → List InterruptDesc
init_descs i zero = []
init_descs i (suc left) =
    record {
      irq_num = i;
      prio = irq_max_prio;
      enabled = 0;
      ignored = irq_not_ignored;
      status = irq_status_okay;
    }
    ∷ init_descs (i + 1) left

unfoldable pub init_irq_controller : IrqController
unfolding init_descs
init_irq_controller = record {
  regs = replicate irq_controller_device_regs 0;
  registered_interrupts = init_descs 0 irq_interrupts_sum;
  int_valid_flag = 0;
  external_irq_req = 0;
  device_base_status = 0;
  external_irq = 0;
}
