-- ===== src/Cpu/Irq/Enter.antt =====
-- `irq_call` of src/controllers/ecall.c when an interrupt is pending and allowed.
use wolf_cpuemulator.Common.{ℕ, ◌+◌, ◌*◌, ◌%◌, ◌/◌, ◌^◌, ◌<◌, ◌≡◌, ◌≢◌, refl, arith, true, false}
use wolf_cpuemulator.Common.{
  ◌==◌, ◌&&◌, not, is_set, u16, some, ◌&&&◌, ◌|||◌, ◌<<◌, ◌>>◌, all_below,
}
use wolf_cpuemulator.Common.{
  all_below₂_sound, all_below_sound, sym, ◌∙◌, ap, ltb, both_true, same, same-eq, not-true,
}
use wolf_cpuemulator.Common.Bits.{bit_and_mask}
use wolf_cpuemulator.Cpu.State.{Cpu, is_in_kern_mode, is_irq_allow}
use wolf_cpuemulator.Cpu.Port.{Bus}
use wolf_cpuemulator.Cpu.Irq.{irq_call, ask_irqcode, enter_irq}
use wolf_cpuemulator.Cpu.Trap.{bcr_irq_disallow_mask, bcr_kern_mode_mask}

-- BCR in the handler, for the mode bit of the interrupt
abbrev in_handler : ℕ → ℕ → ℕ
in_handler bcr mode = u16 (bcr ||| (bcr_irq_disallow_mask ||| mode << bcr_kern_mode_mask))

handler_table :
    all_below 256 (λ b. all_below 2 (λ m.
      not (is_irq_allow (in_handler b m))
      && same (is_in_kern_mode (in_handler b m)) (is_in_kern_mode b && m == 0)))
    ≡ true
unfolding all_below same
handler_table = refl

allowed_table :
    all_below 256 (λ b. same (is_irq_allow b) (not (is_set (b &&& bcr_irq_disallow_mask)))) ≡ true
unfolding all_below same
allowed_table = refl

-- With interrupts allowed in a BCR below 256, an interrupt pending and an answer of the interrupt
-- controller below 64: the program counter goes to the 16-byte slot of the interrupt, the old one is
-- saved, interrupts are off, no interrupt is pending any more, and the CPU is in kernel mode exactly
-- if it was before and the interrupt's bit of the mode mask is 0.
pub irq_call_lem :
    {S : Type 0} (bus : Bus S) (c : Cpu) (s : S)
    → c.spe_regs.bcr < 256
    → is_irq_allow c.spe_regs.bcr ≡ true
    → c.external_irq ≢ 0
    → (ask_irqcode bus s).0 < 64
    → let code = (ask_irqcode bus s).0 in
      (d : Cpu) × (irq_call bus c s ≡ some (d, (ask_irqcode bus s).1))
      × (d.pc ≡ (c.irq_regs.mpc + code * 16) % 2 ^ 32)
      × (d.irq_regs.mep ≡ c.pc)
      × (is_irq_allow d.spe_regs.bcr ≡ false)
      × (d.external_irq ≡ 0)
      × (is_in_kern_mode d.spe_regs.bcr
          ≡ (is_in_kern_mode c.spe_regs.bcr && c.irq_regs.mmode / 2 ^ code % 2 == 0))
unfolding irq_call enter_irq
irq_call_lem bus c s hb allowed pending hc =
    let code = (ask_irqcode bus s).0 in
    let bcr = c.spe_regs.bcr in
    let mode = c.irq_regs.mmode >> code &&& 1 in
    let bit : mode ≡ c.irq_regs.mmode / 2 ^ code % 2 = bit_and_mask 1 (c.irq_regs.mmode >> code) in
    let open_gate = same-eq _ _ (
      all_below_sound 256 (λ b. same (is_irq_allow b) (not (is_set (b &&& bcr_irq_disallow_mask))))
        bcr allowed_table hb) in
    let gate : is_set (bcr &&& bcr_irq_disallow_mask) ≡ false =
      not-true _ (sym open_gate ∙ allowed) in
    let waiting : is_set c.external_irq ≡ true = ground (arith, pending) in
    let in_mask : ltb code 64 ≡ true = ground (arith, hc) in
    let entered : irq_call bus c s ≡ some (enter_irq c code, (ask_irqcode bus s).1) =
      rw (gate, waiting, in_mask) refl in
    let t =
      all_below₂_sound 256 2
        (λ b m.
          not (is_irq_allow (in_handler b m))
          && same (is_in_kern_mode (in_handler b m)) (is_in_kern_mode b && m == 0))
        bcr mode handler_table hb (omega (arith, bit)) in
    let (off, kept) = both_true _ _ t in
    (
      enter_irq c code,
      entered,
      refl,
      refl,
      not-true _ off,
      refl,
      same-eq _ _ kept ∙ ap (λ m. is_in_kern_mode bcr && m == 0) bit,
    )
