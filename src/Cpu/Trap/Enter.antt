-- ===== src/Cpu/Trap/Enter.antt =====
-- What `ecall`, `eret` and `access_check` do to the mode, the interrupts and the program counter.
use wolf_cpuemulator.Common.{ℕ, ◌+◌, ◌*◌, ◌^◌, ◌%◌, ◌<◌, ◌≡◌, refl, arith, true, false, flag, not}
use wolf_cpuemulator.Common.{◌&&◌, u8, u16, bit_xor, ◌&&&◌, ◌|||◌, ◌<<◌}
use wolf_cpuemulator.Common.{
  all_below, all_below_sound, both_true, ==_iff, ◌==◌, not-true, same, same-eq,
}
use wolf_cpuemulator.Cpu.State.{Cpu, is_in_kern_mode, is_irq_allow}
use wolf_cpuemulator.Cpu.Trap.{ecall, eret, get_data_bit_value}

-- The BCR value after `ecall`, and after `eret` behind it.
abbrev entered : ℕ → ℕ
entered bcr = u16 (bcr ||| (16 ||| 0 << 0))

abbrev saved : ℕ → ℕ
saved bcr = u8 (flag (is_in_kern_mode bcr) << 0 ||| (bcr &&& 16) << 1)

abbrev left : ℕ → ℕ
left bcr =
    u16 (entered bcr ||| get_data_bit_value (saved bcr) 0 << 0)
    &&& bit_xor 0xff (get_data_bit_value (saved bcr) 1 << 4)

saved_table :
    all_below 256 (λ b. saved b == flag (is_in_kern_mode b) + 32 * flag (not (is_irq_allow b)))
    ≡ true
unfolding all_below
saved_table = refl

entered_table :
    all_below 256 (λ b.
      not (is_irq_allow (entered b)) && same (is_in_kern_mode (entered b)) (is_in_kern_mode b))
    ≡ true
unfolding all_below same
entered_table = refl

left_table :
    all_below 256 (λ b. not (is_irq_allow (left b)) && not (is_in_kern_mode (left b))) ≡ true
unfolding all_below
left_table = refl

-- Entering a handler with an 8-bit code, from a BCR below 256: the program counter goes to the
-- 16-byte slot of the code, the old one, the reason and the argument are saved, the old mode is saved
-- as bit 0, set in kernel mode, and bit 5, set where interrupts were off, and interrupts are off. The
-- privilege mode stays what it was, so a program in user mode enters its handler in user mode.
pub ecall_lem :
    (c : Cpu) (ecode reason earg : ℕ)
    → ecode < 256
    → c.spe_regs.bcr < 256
    → let d = ecall c ecode reason earg in
      (d.pc ≡ (c.ecall_regs.mpc + ecode * 16) % 2 ^ 32)
      × (d.ecall_regs.mep ≡ c.pc)
      × (d.ecall_regs.mreason ≡ reason)
      × (d.ecall_regs.eargs ≡ earg)
      × (d.ecall_regs.mprevmode
          ≡ flag (is_in_kern_mode c.spe_regs.bcr) + 32 * flag (not (is_irq_allow c.spe_regs.bcr)))
      × (is_irq_allow d.spe_regs.bcr ≡ false)
      × (is_in_kern_mode d.spe_regs.bcr ≡ is_in_kern_mode c.spe_regs.bcr)
unfolding ecall
ecall_lem c ecode reason earg he hb =
    let t =
      all_below_sound 256
        (λ (b : ℕ).
          not (is_irq_allow (entered b)) && same (is_in_kern_mode (entered b)) (is_in_kern_mode b))
        c.spe_regs.bcr entered_table hb in
    let (off, mode) = both_true _ _ t in
    let before = (==_iff (saved c.spe_regs.bcr) _).0 (
      all_below_sound 256
        (λ (b : ℕ). saved b == flag (is_in_kern_mode b) + 32 * flag (not (is_irq_allow b)))
        c.spe_regs.bcr saved_table hb) in
    (omega arith, refl, refl, refl, before, not-true _ off, same-eq _ _ mode)

-- Returning from a handler just entered from a BCR below 256: the program counter is 4 above the base
-- of the handlers, wherever the exception came from, the CPU is in user mode, also if it was in
-- kernel mode before, and interrupts stay off.
pub eret-ecall :
    (c : Cpu) (ecode reason earg : ℕ)
    → c.spe_regs.bcr < 256
    → let d = eret (ecall c ecode reason earg) in
      (d.pc ≡ (c.ecall_regs.mpc + 4) % 2 ^ 32)
      × (is_in_kern_mode d.spe_regs.bcr ≡ false)
      × (is_irq_allow d.spe_regs.bcr ≡ false)
unfolding ecall eret
eret-ecall c ecode reason earg hb =
    let t =
      all_below_sound 256 (λ (b : ℕ). not (is_irq_allow (left b)) && not (is_in_kern_mode (left b)))
        c.spe_regs.bcr left_table hb in
    let (off, user) = both_true _ _ t in (refl, not-true _ user, not-true _ off)
