-- ===== src/IrqController/Invariant.antt =====
-- What every command of the interrupt controller keeps.
use wolf_cpuemulator.Common.{ℕ, ◌≤◌, ◌<◌, ◌≡◌, arith, ◌==◌}
use wolf_cpuemulator.Common.{Option, none, some, List, get_elem?, set, length, length-set, leb}
use wolf_cpuemulator.Common.{
  get_elem?-set, u8, subst, lt_of_get_elem?, Bool-cases, ==_iff, flag, inl, inr, ◌∙◌,
}
use wolf_cpuemulator.Common.Partial.{◌>>=◌, >>=-eq-some, eq_of_some}
use wolf_cpuemulator.IrqController.State.{
  InterruptDesc, IrqController, set_stat, update_desc, clear_valid, set_valid, get_64_set_flag,
  get_64_clear_flag,
}
use wolf_cpuemulator.IrqController.Commands.{set_interrupt_ok, set_priority, deliver, is_raised}

-- A descriptor knows its number, and its bit-fields hold values that the program uses.
pub record IsDesc (i : ℕ) (d : InterruptDesc) : Type 0 where
  pub own_number : d.irq_num ≡ i
  pub enabled_bit : d.enabled < 2
  pub ignored_bit : d.ignored < 2
  pub known_status : d.status < 3
  pub prio_bound : d.prio ≤ 3

pub record IsValid (c : IrqController) : Type 0 where
  pub eight_regs : length c.regs ≡ 8
  pub all_there : length c.registered_interrupts ≡ 64
  pub descs :
      (i : ℕ) (d : InterruptDesc) → get_elem? c.registered_interrupts i ≡ some d → IsDesc i d

abbrev AllDescs : List InterruptDesc → Type 0
AllDescs ds = (i : ℕ) (d : InterruptDesc) → get_elem? ds i ≡ some d → IsDesc i d

AllDescs-set :
    (ds : List InterruptDesc) (n : ℕ) (v : InterruptDesc)
    → n < length ds
    → IsDesc n v
    → AllDescs ds
    → AllDescs (set ds n v)
AllDescs-set ds n v lt ok all i d at = elim (Bool-cases (n == i)) [
  | inl e ↦
      let found : some v ≡ some d = rw (get_elem?-set ds n i v lt, e) at at in
      subst (λ x. IsDesc i x) (eq_of_some found) (subst (λ x. IsDesc x v) ((==_iff n i).0 e) ok)
  | inr e ↦ all i d (rw (get_elem?-set ds n i v lt, e) at at)
]

-- Changing a descriptor by a function that keeps it a descriptor.
pub update_desc-IsValid :
    (c : IrqController) {c' : IrqController} (n : ℕ) (f : InterruptDesc → InterruptDesc)
    → ((d : InterruptDesc) → IsDesc n d → IsDesc n (f d))
    → IsValid c
    → update_desc c n f ≡ some c'
    → IsValid c'
unfolding update_desc
update_desc-IsValid c n f keep v h =
    let ds = c.registered_interrupts in
    let (d, at, e) = >>=-eq-some (get_elem? ds n) _ h in
    subst IsValid (eq_of_some e) (record {
      eight_regs = v.eight_regs;
      all_there = length-set ds n (f d) ∙ v.all_there;
      descs = AllDescs-set ds n (f d) (lt_of_get_elem? ds n at) (keep d (v.descs n d at)) v.descs;
    })

clear_valid-IsValid :
    (c : IrqController) {c' : IrqController} (n : ℕ)
    → IsValid c
    → clear_valid c n ≡ some c'
    → IsValid c'
unfolding clear_valid
clear_valid-IsValid c n v h =
    let (m, at, e) = >>=-eq-some (get_64_clear_flag n) _ h in
    subst IsValid (eq_of_some e)
      (record { eight_regs = v.eight_regs; all_there = v.all_there; descs = v.descs })

pub set_valid-IsValid :
    (c : IrqController) {c' : IrqController} (n : ℕ)
    → IsValid c
    → set_valid c n ≡ some c'
    → IsValid c'
unfolding set_valid
set_valid-IsValid c n v h =
    let (m, at, e) = >>=-eq-some (get_64_set_flag n) _ h in
    subst IsValid (eq_of_some e)
      (record { eight_regs = v.eight_regs; all_there = v.all_there; descs = v.descs })

set_reg-IsValid :
    (c : IrqController) (i x : ℕ) → IsValid c → IsValid (record c { regs = set c.regs i x })
set_reg-IsValid c i x v = record {
  eight_regs = length-set c.regs i x ∙ v.eight_regs;
  all_there = v.all_there;
  descs = v.descs;
}

-- The chains that the commands are made of.
pub update_clear-IsValid :
    (c : IrqController) {c' : IrqController} (n : ℕ) (f : InterruptDesc → InterruptDesc)
    → ((d : InterruptDesc) → IsDesc n d → IsDesc n (f d))
    → IsValid c
    → (update_desc c n f >>= λ c1. clear_valid c1 n >>= λ c2. some (set_stat c2 0)) ≡ some c'
    → IsValid c'
update_clear-IsValid c n f keep v h =
    let (c1, e1, h1) = >>=-eq-some (update_desc c n f) _ h in
    let (c2, e2, h2) = >>=-eq-some (clear_valid c1 n) _ h1 in
    subst IsValid (eq_of_some h2)
      (set_reg-IsValid c2 1 0 (clear_valid-IsValid c1 n (update_desc-IsValid c n f keep v e1) e2))

pub update_raise-IsValid :
    (c : IrqController) {c' : IrqController} (n : ℕ) (f : InterruptDesc → InterruptDesc)
    → ((d : InterruptDesc) → IsDesc n d → IsDesc n (f d))
    → IsValid c
    → (update_desc c n f >>= λ c1. get_elem? c1.registered_interrupts n >>= λ d.
        set_valid c1 (flag (is_raised d)) >>= λ c2. some (set_stat c2 0))
      ≡ some c'
    → IsValid c'
update_raise-IsValid c n f keep v h =
    let (c1, e1, h1) = >>=-eq-some (update_desc c n f) _ h in
    let (d, at, h2) = >>=-eq-some (get_elem? c1.registered_interrupts n) _ h1 in
    let (c2, e2, h3) = >>=-eq-some (set_valid c1 (flag (is_raised d))) _ h2 in
    subst IsValid (eq_of_some h3) (
      set_reg-IsValid c2 1 0
        (set_valid-IsValid c1 (flag (is_raised d)) (update_desc-IsValid c n f keep v e1) e2))

pub set_interrupt_ok-IsValid :
    (c : IrqController) {c' : IrqController} (n : ℕ)
    → IsValid c
    → set_interrupt_ok c n ≡ some c'
    → IsValid c'
unfolding set_interrupt_ok
set_interrupt_ok-IsValid c n v h =
    let f : InterruptDesc → InterruptDesc = λ d. record d { status = 0 } in
    let (c1, e1, h1) = >>=-eq-some (update_desc c n f) _ h in
    clear_valid-IsValid (set_stat c1 0) n
      (set_reg-IsValid c1 1 0 (update_desc-IsValid c n f (λ d k. ground arith) v e1)) h1

pub set_priority-IsValid :
    (c : IrqController) {c' : IrqController} (n p : ℕ)
    → IsValid c
    → set_priority c n p ≡ some c'
    → IsValid c'
unfolding set_priority
set_priority-IsValid c n p v h = elim (Bool-cases (leb 3 n)) [
  | inl e ↦ subst IsValid (eq_of_some (rw e at h)) (record {
    eight_regs = length-set c.regs 1 3 ∙ v.eight_regs;
    all_there = v.all_there;
    descs = v.descs;
  })
  | inr e ↦
      update_desc-IsValid (set_stat c 0) n (λ d. record d { status = 0 }) (λ d k. ground arith)
        (set_reg-IsValid c 1 0 v) (rw e at h)
]

pub deliver-IsValid :
    (c : IrqController) {c' : IrqController} (m : Option ℕ)
    → IsValid c
    → deliver c m ≡ some c'
    → IsValid c'
unfolding deliver
deliver-IsValid c none v h = subst IsValid (eq_of_some h) (set_reg-IsValid c 1 1 v)
deliver-IsValid c (some k) v h =
    let f : InterruptDesc → InterruptDesc = λ d. record d { status = 2 } in
    let (d, at, h1) = >>=-eq-some (get_elem? c.registered_interrupts k) _ h in
    let (c1, e1, h2) = >>=-eq-some (update_desc c k f) _ h1 in
    subst IsValid (eq_of_some h2) (
      set_reg-IsValid (record c1 { regs = set c1.regs 2 (u8 d.irq_num) }) 1 0
        (set_reg-IsValid c1 2 (u8 d.irq_num)
          (update_desc-IsValid c k f (λ d k. ground arith) v e1)))
