-- ===== src/IrqController/State.antt =====
-- src/mmio_devices/irq_controller.c and its header: the descriptors, the controller, and the changes
-- that its functions are made of. A descriptor index past the table, or a shift of `1` into or past
-- the sign bit of an `int`, is `none`, since C leaves both undefined.
use wolf_cpuemulator.Common.{ℕ, ◌^◌, ltb}
use wolf_cpuemulator.Common.{if◌then◌else◌, Option, none, some, List, get_elem?, set}
use wolf_cpuemulator.Common.{bit_xor, ◌&&&◌, ◌|||◌}
use wolf_cpuemulator.Common.Partial.{◌>>=◌}

abbrev pub func_reg_addr : ℕ
func_reg_addr = 0

abbrev stat_reg_addr : ℕ
stat_reg_addr = 1

abbrev pub op_irqnum : ℕ
op_irqnum = 2

abbrev pub prio_set : ℕ
prio_set = 4

abbrev pub irq_max_prio : ℕ
irq_max_prio = 3

abbrev pub irq_interrupts_sum : ℕ
irq_interrupts_sum = 64

abbrev pub irq_controller_device_regs : ℕ
irq_controller_device_regs = 8

abbrev pub irq_status_okay : ℕ
irq_status_okay = 0

abbrev pub irq_status_suspend : ℕ
irq_status_suspend = 1

abbrev pub irq_status_processing : ℕ
irq_status_processing = 2

abbrev pub irq_ignored : ℕ
irq_ignored = 1

abbrev pub irq_not_ignored : ℕ
irq_not_ignored = 0

-- INTERRUPT_DESC; its field `addr` is never used.
pub record InterruptDesc : Type 0 where
  pub irq_num : ℕ
  pub prio : ℕ
  pub enabled : ℕ
  pub ignored : ℕ
  pub status : ℕ

-- WOLF_IRQ_CONTROLLER, with `device_base_status` of its bus device and `external_irq` of the CPU's
-- ecall controller
pub record IrqController : Type 0 where
  pub regs : List ℕ
  pub registered_interrupts : List InterruptDesc
  pub int_valid_flag : ℕ
  pub external_irq_req : ℕ
  pub device_base_status : ℕ
  pub external_irq : ℕ

-- GET_64_SET_FLAG and GET_64_CLEAR_FLAG
unfoldable pub get_64_set_flag : ℕ → Option ℕ
get_64_set_flag num = if ltb num 31 then some (2 ^ num) else none

unfoldable pub get_64_clear_flag : ℕ → Option ℕ
unfolding get_64_set_flag
get_64_clear_flag num = do bit ← get_64_set_flag num; some (bit_xor 0xffffffffffffffff bit)

abbrev pub set_stat : IrqController → ℕ → IrqController
set_stat ctrl v = record ctrl { regs = set ctrl.regs stat_reg_addr v }

-- A change of the descriptor `registered_interrupts[n]`.
unfoldable pub update_desc :
    IrqController → ℕ → (InterruptDesc → InterruptDesc) → Option IrqController
update_desc ctrl n f = do
  d ← get_elem? ctrl.registered_interrupts n
  some (record ctrl { registered_interrupts = set ctrl.registered_interrupts n (f d) })

-- `int_valid_flag &= GET_64_CLEAR_FLAG(n)` and `int_valid_flag |= GET_64_SET_FLAG(n)`
unfoldable pub clear_valid : IrqController → ℕ → Option IrqController
unfolding get_64_clear_flag
clear_valid ctrl n = do
  mask ← get_64_clear_flag n
  some (record ctrl { int_valid_flag = ctrl.int_valid_flag &&& mask })

unfoldable pub set_valid : IrqController → ℕ → Option IrqController
unfolding get_64_set_flag
set_valid ctrl n = do
  bit ← get_64_set_flag n
  some (record ctrl { int_valid_flag = ctrl.int_valid_flag ||| bit })
