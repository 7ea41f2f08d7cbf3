-- ===== src/IrqController/Total.antt =====
-- Which commands of the interrupt controller are defined: those on the interrupts 0 to 30.
use wolf_cpuemulator.Common.{ℕ, ◌<◌, ◌≡◌, ◌≢◌, arith, some, none, get_elem?, get_or, flag}
use wolf_cpuemulator.Common.{get_elem?-some, Bool-cases, inl, inr, leb, is_set, ap}
use wolf_cpuemulator.Common.Partial.{◌>>=◌, >>=-ne-none, some_of-ne-none}
use wolf_cpuemulator.IrqController.State.{
  InterruptDesc, IrqController, set_stat, update_desc, clear_valid, set_valid, get_64_set_flag,
  get_64_clear_flag,
}
use wolf_cpuemulator.IrqController.Commands.{
  set_irq_disable, set_irq_enable, set_irq_ignore, clear_irq_ignore, set_interrupt_ok, set_priority,
  process, deliver, is_raised,
}
use wolf_cpuemulator.IrqController.Device.{
  run_command, decode_command, Command, set_ignore, clear_ignore, disable, enable, process_ok,
  priority, processing, other, device_start, irq_trigger, raise, finish_command,
}
use wolf_cpuemulator.IrqController.Arbitrate.{arbitrate_lem}
use wolf_cpuemulator.IrqController.Invariant.{IsDesc, IsValid, update_desc-IsValid}
use wolf_cpuemulator.IrqController.Preserve.{device_start-IsValid, irq_trigger-IsValid}

update_desc-ne-none :
    (c : IrqController) (n : ℕ) (f : InterruptDesc → InterruptDesc)
    → IsValid c
    → n < 64
    → update_desc c n f ≢ none
unfolding update_desc
update_desc-ne-none c n f v h =
    let (d, e) = get_elem?-some c.registered_interrupts n (omega (arith, v.all_there)) in
    rw e (ground arith)

clear_valid-ne-none : (c : IrqController) (n : ℕ) → n < 31 → clear_valid c n ≢ none
unfolding clear_valid get_64_clear_flag get_64_set_flag
clear_valid-ne-none c n h = ground arith

set_valid-ne-none : (c : IrqController) (n : ℕ) → n < 31 → set_valid c n ≢ none
unfolding set_valid get_64_set_flag
set_valid-ne-none c n h = ground arith

update_clear-ne-none :
    (c : IrqController) (n : ℕ) (f : InterruptDesc → InterruptDesc)
    → IsValid c
    → n < 31
    → (update_desc c n f >>= λ c1. clear_valid c1 n >>= λ c2. some (set_stat c2 0)) ≢ none
update_clear-ne-none c n f v h =
    >>=-ne-none (update_desc c n f) _ (update_desc-ne-none c n f v (omega arith)) (λ c1 e.
      >>=-ne-none (clear_valid c1 n) _ (clear_valid-ne-none c1 n h) (λ c2 e2. ground arith))

update_raise-ne-none :
    (c : IrqController) (n : ℕ) (f : InterruptDesc → InterruptDesc)
    → ((d : InterruptDesc) → IsDesc n d → IsDesc n (f d))
    → IsValid c
    → n < 31
    → (update_desc c n f >>= λ c1. get_elem? c1.registered_interrupts n >>= λ d.
        set_valid c1 (flag (is_raised d)) >>= λ c2. some (set_stat c2 0))
      ≢ none
update_raise-ne-none c n f keep v h =
    >>=-ne-none (update_desc c n f) _ (update_desc-ne-none c n f v (omega arith)) (λ c1 e.
      let w = update_desc-IsValid c n f keep v e in
      let (d, at) = get_elem?-some c1.registered_interrupts n (omega (arith, w.all_there)) in
      rw at (
        >>=-ne-none (set_valid c1 (flag (is_raised d))) _
          (set_valid-ne-none c1 (flag (is_raised d)) (ground arith)) (λ c2 e2. ground arith)))

set_interrupt_ok-ne-none :
    (c : IrqController) (n : ℕ) → IsValid c → n < 31 → set_interrupt_ok c n ≢ none
unfolding set_interrupt_ok
set_interrupt_ok-ne-none c n v h =
    >>=-ne-none (update_desc c n _) _ (update_desc-ne-none c n _ v (omega arith))
      (λ c1 e. clear_valid-ne-none (set_stat c1 0) n h)

set_priority-ne-none : (c : IrqController) (n p : ℕ) → IsValid c → set_priority c n p ≢ none
unfolding set_priority update_desc
set_priority-ne-none c n p v = elim (Bool-cases (leb 3 n)) [
  | inl e ↦ rw e (ground arith)
  | inr e ↦
      let (d, at) = get_elem?-some c.registered_interrupts n (ground (arith, v.all_there)) in
      rw (e, at) (ground arith)
]

process-ne-none : (c : IrqController) → process c ≢ none
unfolding process deliver update_desc
process-ne-none c = elim (arbitrate_lem c.registered_interrupts) [
  | inl (e, none_below) ↦ rw e (ground arith)
  | inr (k, d, e, lt, w) ↦ rw (e, w.placed) (ground arith)
]

run_command-ne-none :
    (c : IrqController) (cmd : Command) (n : ℕ) → IsValid c → n < 31 → run_command c cmd n ≢ none
unfolding run_command set_irq_ignore set_irq_disable set_irq_enable clear_irq_ignore
run_command-ne-none c set_ignore n v h = update_clear-ne-none c n _ v h
run_command-ne-none c clear_ignore n v h = update_raise-ne-none c n _ (λ d k. ground arith) v h
run_command-ne-none c disable n v h = update_clear-ne-none c n _ v h
run_command-ne-none c enable n v h = update_raise-ne-none c n _ (λ d k. ground arith) v h
run_command-ne-none c process_ok n v h = set_interrupt_ok-ne-none c n v h
run_command-ne-none c priority n v h = set_priority-ne-none c n _ v
run_command-ne-none c processing n v h = process-ne-none c
run_command-ne-none c other n v h = ground arith

-- From a controller with a whole table, every command on one of the interrupts 0 to 30 is defined,
-- and leaves the table of 64 descriptors
-- and the 8 registers whole: each descriptor keeps its own number, its flags are single bits, its
-- status is one of the three, and its priority number is at most 3.
pub device_start_lem :
    (c : IrqController)
    → IsValid c
    → get_or c.regs 2 0 < 31
    → (c' : IrqController) × (device_start c ≡ some c') × IsValid c'
unfolding device_start
device_start_lem c v h =
    let cmd = decode_command (get_or c.regs 0 0) in
    let n = get_or c.regs 2 0 in
    let (c1, e1) = some_of-ne-none (run_command c cmd n) (run_command-ne-none c cmd n v h) in
    let e : device_start c ≡ some (finish_command c1) =
      ap (λ m. m >>= λ x. some (finish_command x)) e1 in
    (finish_command c1, e, device_start-IsValid c v e)

raise-ne-none : (c : IrqController) (n vendor : ℕ) → IsValid c → n < 31 → raise c n vendor ≢ none
unfolding raise
raise-ne-none c n vendor v h =
    >>=-ne-none (update_desc c n _) _ (update_desc-ne-none c n _ v (omega arith))
      (λ c1 e. >>=-ne-none (set_valid c1 n) _ (set_valid-ne-none c1 n h) (λ c2 e2. ground arith))

irq_trigger-ne-none :
    (c : IrqController) (n vendor : ℕ) → IsValid c → n < 31 → irq_trigger c n vendor ≢ none
unfolding irq_trigger
irq_trigger-ne-none c n vendor v h =
    let (d0, at) = get_elem?-some c.registered_interrupts n (omega (arith, v.all_there)) in
    >>=-ne-none (get_elem? c.registered_interrupts n) _ (rw at (ground arith)) (λ d e.
      elim (Bool-cases (is_set d.enabled)) [
        | inl f ↦ rw f (raise-ne-none c n vendor v h)
        | inr f ↦ rw f (ground arith)
      ])

-- From a controller with a whole table, raising one of the interrupts 0 to 30 is defined, and the
-- table stays whole.
irq_trigger_lem :
    (c : IrqController) (n vendor : ℕ)
    → IsValid c
    → n < 31
    → (c' : IrqController) × (irq_trigger c n vendor ≡ some c') × IsValid c'
irq_trigger_lem c n vendor v h =
    let (c1, e1) = some_of-ne-none (irq_trigger c n vendor) (irq_trigger-ne-none c n vendor v h) in
    (c1, e1, irq_trigger-IsValid c n vendor v e1)
