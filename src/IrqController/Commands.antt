-- ===== src/IrqController/Commands.antt =====
-- src/mmio_devices/irq_controller.c: the functions behind the commands, and the arbitration.
use wolf_cpuemulator.Common.{ℕ, ◌+◌, Bool, ◌==◌, ◌&&◌, not, ltb, leb, flag, is_set}
use wolf_cpuemulator.Common.{if◌then◌else◌, Option, none, some, List, [], ◌∷◌, get_elem?, set}
use wolf_cpuemulator.Common.{u8}
use wolf_cpuemulator.Common.Partial.{◌>>=◌}
use wolf_cpuemulator.IrqController.State.{
  op_irqnum, irq_max_prio, irq_status_okay, irq_status_suspend, irq_status_processing, irq_ignored,
  irq_not_ignored, InterruptDesc, IrqController, set_stat, update_desc, clear_valid, set_valid,
}

unfoldable pub set_irq_disable : IrqController → ℕ → Option IrqController
unfolding update_desc clear_valid
set_irq_disable ctrl irq_num = do
  ctrl1 ← update_desc ctrl irq_num (λ d. record d { enabled = 0 })
  ctrl2 ← clear_valid ctrl1 irq_num
  some (set_stat ctrl2 0)

-- The truth value whose shift `set_irq_enable` and `clear_irq_ignore` store.
unfoldable pub is_raised : InterruptDesc → Bool
is_raised d = is_set d.enabled && not (is_set d.ignored) && d.status == irq_status_suspend

unfoldable pub set_irq_enable : IrqController → ℕ → Option IrqController
unfolding update_desc set_valid is_raised
set_irq_enable ctrl irq_num = do
  ctrl1 ← update_desc ctrl irq_num (λ d. record d { enabled = 1 })
  d ← get_elem? ctrl1.registered_interrupts irq_num
  ctrl2 ← set_valid ctrl1 (flag (is_raised d))
  some (set_stat ctrl2 0)

unfoldable pub set_irq_ignore : IrqController → ℕ → Option IrqController
unfolding update_desc clear_valid
set_irq_ignore ctrl irq_num = do
  ctrl1 ← update_desc ctrl irq_num (λ d. record d { ignored = irq_ignored })
  ctrl2 ← clear_valid ctrl1 irq_num
  some (set_stat ctrl2 0)

unfoldable pub clear_irq_ignore : IrqController → ℕ → Option IrqController
unfolding update_desc set_valid is_raised
clear_irq_ignore ctrl irq_num = do
  ctrl1 ← update_desc ctrl irq_num (λ d. record d { ignored = irq_not_ignored })
  d ← get_elem? ctrl1.registered_interrupts irq_num
  ctrl2 ← set_valid ctrl1 (flag (is_raised d))
  some (set_stat ctrl2 0)

unfoldable pub set_interrupt_ok : IrqController → ℕ → Option IrqController
unfolding update_desc clear_valid
set_interrupt_ok ctrl irq_num = do
  ctrl1 ← update_desc ctrl irq_num (λ d. record d { status = irq_status_okay })
  clear_valid (set_stat ctrl1 0) irq_num

-- The C function tests the number of the interrupt, and does not use `prio`.
unfoldable pub set_priority : IrqController → ℕ → ℕ → Option IrqController
unfolding update_desc
set_priority ctrl irq_num prio =
    if leb irq_max_prio irq_num
    then some (set_stat (record ctrl { device_base_status = 1 }) 3)
    else update_desc (set_stat ctrl 0) irq_num (λ d. record d { status = irq_status_okay })

-- The test of the arbitration loop.
unfoldable pub is_candidate : InterruptDesc → ℕ → Bool
is_candidate d min_prio =
    ltb d.prio min_prio
    && d.enabled == 1
    && d.status == irq_status_suspend
    && d.ignored == irq_not_ignored

-- The loop from index `i` on; the result is `min_index`, `none` for -1.
unfoldable pub arbitrate : List InterruptDesc → ℕ → ℕ → Option ℕ → Option ℕ
unfolding is_candidate
arbitrate [] i min_prio min_index = min_index
arbitrate (d ∷ ds) i min_prio min_index =
    arbitrate ds (i + 1) (if is_candidate d min_prio then d.prio else min_prio)
      (if is_candidate d min_prio then some i else min_index)

-- What the case of IRQ_CMD_PROCESSING does with the result.
unfoldable pub deliver : IrqController → Option ℕ → Option IrqController
unfolding update_desc
deliver ctrl none = some (set_stat ctrl 1)
deliver ctrl (some min_index) = do
  d ← get_elem? ctrl.registered_interrupts min_index
  ctrl1 ← update_desc ctrl min_index (λ e. record e { status = irq_status_processing })
  some (set_stat (record ctrl1 { regs = set ctrl1.regs op_irqnum (u8 d.irq_num) }) 0)

unfoldable pub process : IrqController → Option IrqController
unfolding arbitrate deliver
process ctrl = deliver ctrl (arbitrate ctrl.registered_interrupts 0 irq_max_prio none)
