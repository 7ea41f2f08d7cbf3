-- ===== src/IrqController/Preserve.antt =====
-- The device's steps keep the table of the interrupt controller whole.
use wolf_cpuemulator.Common.{ℕ, zero, suc, ◌+◌, ◌≡◌, refl, arith}
use wolf_cpuemulator.Common.{some, get_elem?, length, length-set}
use wolf_cpuemulator.Common.{zero, suc, subst, Bool-cases, inl, inr, ◌∙◌, ap, is_set}
use wolf_cpuemulator.Common.{get_or}
use wolf_cpuemulator.Common.Partial.{>>=-eq-some, eq_of_some}
use wolf_cpuemulator.IrqController.State.{InterruptDesc, IrqController, update_desc, set_valid}
use wolf_cpuemulator.IrqController.Commands.{
  set_irq_disable, set_irq_enable, set_irq_ignore, clear_irq_ignore, process,
}
use wolf_cpuemulator.IrqController.Device.{
  run_command, decode_command, Command, set_ignore, clear_ignore, disable, enable, process_ok,
  priority, processing, other, device_start, finish_command, irq_trigger, raise,
  init_irq_controller, init_descs,
}
use wolf_cpuemulator.IrqController.Invariant.{
  IsDesc, IsValid, update_desc-IsValid, set_valid-IsValid, update_clear-IsValid,
  update_raise-IsValid, set_interrupt_ok-IsValid, set_priority-IsValid, deliver-IsValid,
}

run_command-IsValid :
    (c : IrqController) {c' : IrqController} (cmd : Command) (n : ℕ)
    → IsValid c
    → run_command c cmd n ≡ some c'
    → IsValid c'
unfolding run_command set_irq_ignore set_irq_disable set_irq_enable clear_irq_ignore process
run_command-IsValid c set_ignore n v h = update_clear-IsValid c n _ (λ d k. ground arith) v h
run_command-IsValid c clear_ignore n v h = update_raise-IsValid c n _ (λ d k. ground arith) v h
run_command-IsValid c disable n v h = update_clear-IsValid c n _ (λ d k. ground arith) v h
run_command-IsValid c enable n v h = update_raise-IsValid c n _ (λ d k. ground arith) v h
run_command-IsValid c process_ok n v h = set_interrupt_ok-IsValid c n v h
run_command-IsValid c priority n v h = set_priority-IsValid c n _ v h
run_command-IsValid c processing n v h = deliver-IsValid c _ v h
run_command-IsValid c other n v h = subst IsValid (eq_of_some h) v

raise-IsValid :
    (c : IrqController) {c' : IrqController} (n vendor : ℕ)
    → IsValid c
    → raise c n vendor ≡ some c'
    → IsValid c'
unfolding raise
raise-IsValid c n vendor v h =
    let (c1, e1, h1) = >>=-eq-some (update_desc c n _) _ h in
    let (c2, e2, h2) = >>=-eq-some (set_valid c1 n) _ h1 in
    let w = set_valid-IsValid c1 n (update_desc-IsValid c n _ (λ d k. ground arith) v e1) e2 in
    subst IsValid (eq_of_some h2)
      (record { eight_regs = w.eight_regs; all_there = w.all_there; descs = w.descs })

init_descs-number :
    (n i j : ℕ) (d : InterruptDesc) → get_elem? (init_descs i n) j ≡ some d → IsDesc (i + j) d
unfolding init_descs
init_descs-number zero i j d h = absurd (cc)
init_descs-number (suc n) i zero d h = ground arith
init_descs-number (suc n) i (suc j) d h =
    subst (λ x. IsDesc x d) (omega arith) (init_descs-number n (i + 1) j d h)

length-init_descs : (n i : ℕ) → length (init_descs i n) ≡ n
unfolding init_descs
length-init_descs zero i = refl
length-init_descs (suc n) i = ap suc (length-init_descs n (i + 1))

-- The controller starts with a whole table.
pub init_irq_controller-IsValid : IsValid init_irq_controller
unfolding init_irq_controller
init_irq_controller-IsValid = record {
  eight_regs = refl;
  all_there = length-init_descs 64 0;
  descs = λ i d h. subst (λ x. IsDesc x d) (omega arith) (init_descs-number 64 0 i d h);
}

-- Every command of the controller, whatever its registers hold, keeps the table of 64 descriptors
-- and the 8 registers whole: each descriptor keeps its own number, its flags are single bits, its
-- status is one of the three, and its priority number is at most 3.
pub device_start-IsValid :
    (c : IrqController) {c' : IrqController} → IsValid c → device_start c ≡ some c' → IsValid c'
unfolding device_start finish_command
device_start-IsValid c v h =
    let cmd = decode_command (get_or c.regs 0 0) in
    let n = get_or c.regs 2 0 in
    let (c1, e1, h1) = >>=-eq-some (run_command c cmd n) (λ x. some (finish_command x)) h in
    let w = run_command-IsValid c cmd n v e1 in
    subst IsValid (eq_of_some h1) (record {
      eight_regs = length-set c1.regs 0 0 ∙ w.eight_regs;
      all_there = w.all_there;
      descs = w.descs;
    })

-- A device that raises its interrupt keeps the table whole too.
pub irq_trigger-IsValid :
    (c : IrqController) {c' : IrqController} (n vendor : ℕ)
    → IsValid c
    → irq_trigger c n vendor ≡ some c'
    → IsValid c'
unfolding irq_trigger
irq_trigger-IsValid c n vendor v h =
    let (d, at, h1) = >>=-eq-some (get_elem? c.registered_interrupts n) _ h in
    elim (Bool-cases (is_set d.enabled)) [
      | inl e ↦ raise-IsValid c n vendor v (rw e at h1)
      | inr e ↦ subst IsValid (eq_of_some (rw e at h1)) v
    ]
