-- ===== src/Alu/Scr.antt =====
-- SCR as a whole: src/alu.c stores nothing in it but the five flags.
use wolf_cpuemulator.Common.{
  refl, ℕ, ◌+◌, ◌*◌, ◌/◌, ◌%◌, ◌^◌, ◌<◌, ◌≡◌, ◌∙◌, arith, Bool, true, false, flag, ◌==◌, leb, ◌>>◌,
}
use wolf_cpuemulator.Common.Bits.{bit_and_mask}
use wolf_cpuemulator.Alu.{
  pack_flags, update_flag, alu_add_op, get_scr_of_flag, get_scr_sf_flag, get_scr_zf_flag,
  get_scr_pf_flag, get_scr_cf_flag,
}
use wolf_cpuemulator.Alu.Flags.{HasFlags, update_flag-HasFlags, update_flag_eq}
use wolf_cpuemulator.Alu.Parity.{is_odd}
use wolf_cpuemulator.Alu.Add.{wide_sum}

-- The flags at their places
abbrev pub scr_of : (of cf zf sf pf : Bool) → ℕ
scr_of of cf zf sf pf = flag of + flag sf * 2 + flag zf * 4 + flag pf * 8 + flag cf * 16

pack_flags-lt : (o c z s p : Bool) → pack_flags (flag o) (flag c) (flag z) (flag s) (flag p) < 32
unfolding pack_flags
pack_flags-lt o c z s p = ground arith

pub update_flag-lt :
    (num1 num2 res : ℕ) (b : Bool)
    → num1 < 2 ^ 32
    → num2 < 2 ^ 32
    → res < 2 ^ 33
    → update_flag num1 num2 res (flag b) < 32
update_flag-lt num1 num2 res b h1 h2 h3 =
    rw (update_flag_eq num1 num2 res b h1 h2 h3) (pack_flags-lt _ _ _ _ _)

bits_of :
    (scr : ℕ)
    → scr < 32
    → scr ≡ scr % 2 + scr / 2 % 2 * 2 + scr / 4 % 2 * 4 + scr / 8 % 2 * 8 + scr / 16 % 2 * 16
bits_of scr h = omega arith

pub HasFlags-scr_of :
    (scr : ℕ) {o c z s p : Bool} → scr < 32 → HasFlags scr o c z s p → scr ≡ scr_of o c z s p
unfolding get_scr_of_flag get_scr_cf_flag get_scr_zf_flag get_scr_sf_flag get_scr_pf_flag
HasFlags-scr_of scr h f = omega (
  arith,
  bits_of scr h,
  f.overflow,
  f.carry,
  f.is_zero,
  f.sign,
  f.parity,
  bit_and_mask 1 (scr >> 0),
  bit_and_mask 1 (scr >> 1),
  bit_and_mask 1 (scr >> 2),
  bit_and_mask 1 (scr >> 3),
  bit_and_mask 1 (scr >> 4),
)

sign_bit : (v : ℕ) → v < 2 ^ 32 → (v / 2 ^ 31 % 2 == 1) ≡ leb (2 ^ 31) v
sign_bit v h = ground arith

whole : (v : ℕ) → v < 2 ^ 32 → v % 2 ^ 32 ≡ v
whole v h = omega arith

-- An operation without carries
pub update_flag_zero :
    (a b v : ℕ)
    → a < 2 ^ 32
    → b < 2 ^ 32
    → v < 2 ^ 32
    → update_flag a b v 0 ≡ scr_of false false (v == 0) (leb (2 ^ 31) v) (is_odd v)
update_flag_zero a b v ha hb hv =
    HasFlags-scr_of (update_flag a b v 0) (update_flag-lt a b v false ha hb (omega arith))
      (update_flag-HasFlags a b v false ha hb (omega arith))
    ∙ rw (whole v hv, sign_bit v hv) refl

pub alu_add_op-lt : (a b c : ℕ) → a < 2 ^ 32 → b < 2 ^ 32 → c < 2 → (alu_add_op a b c).scr < 32
unfolding alu_add_op
alu_add_op-lt a b c ha hb hc =
    rw (wide_sum a b c ha hb hc) (update_flag-lt a b (a + b + c) true ha hb (omega arith))
