-- ===== src/Alu/Flags.antt =====
-- The flags that src/alu.c leaves in SCR.
use wolf_cpuemulator.Common.{ℕ, ◌/◌, ◌%◌, ◌^◌, ◌<◌, ◌≡◌, arith}
use wolf_cpuemulator.Common.{Bool, flag, ◌==◌, ◌&&◌, ◌||◌, not, leb, u8, ◌>>◌}
use wolf_cpuemulator.Common.{bit_and}
use wolf_cpuemulator.Common.Bits.{bit_and_mask}
use wolf_cpuemulator.Logic.{through8}
use wolf_cpuemulator.Logic.Select.{through8_if}
use wolf_cpuemulator.Alu.{pack_flags, get_scr_of_flag, get_scr_sf_flag, get_scr_zf_flag}
use wolf_cpuemulator.Alu.Parity.{get_pf_lem, is_odd}
use wolf_cpuemulator.Alu.{get_scr_pf_flag, get_scr_cf_flag, update_flag, get_pf}

-- Each flag is read back from where it was stored.
get-pack_flags :
    (o c z s p : Bool)
    → let scr = pack_flags (flag o) (flag c) (flag z) (flag s) (flag p) in
      (get_scr_of_flag scr ≡ flag o)
      × (get_scr_cf_flag scr ≡ flag c)
      × (get_scr_zf_flag scr ≡ flag z)
      × (get_scr_sf_flag scr ≡ flag s)
      × (get_scr_pf_flag scr ≡ flag p)
unfolding pack_flags get_scr_of_flag get_scr_cf_flag get_scr_zf_flag get_scr_sf_flag get_scr_pf_flag
get-pack_flags o c z s p = ground arith

-- The five flags, read from an SCR value at once.
pub record HasFlags (scr : ℕ) (of cf zf sf pf : Bool) : Type 0 where
  pub overflow : get_scr_of_flag scr ≡ flag of
  pub carry : get_scr_cf_flag scr ≡ flag cf
  pub is_zero : get_scr_zf_flag scr ≡ flag zf
  pub sign : get_scr_sf_flag scr ≡ flag sf
  pub parity : get_scr_pf_flag scr ≡ flag pf

abbrev pub add_overflows : ℕ → ℕ → ℕ → Bool
add_overflows a b r = (r == 1 && a == 0 && b == 0) || (r == 0 && a == 1 && b == 1)

-- The five fields that `update_flag` computes, each as a truth value.
carry_field :
    (res : ℕ) (b : Bool)
    → res < 2 ^ 33
    → through8 (flag b) (res >> 32) ≡ flag (b && leb (2 ^ 32) res)
carry_field res b h = ground (arith, through8_if b (res >> 32))

sign_field : (res : ℕ) → u8 (bit_and (res >> 31) 1) ≡ flag (res / 2 ^ 31 % 2 == 1)
sign_field res = ground (arith, bit_and_mask 1 (res >> 31))

top_bit : (n : ℕ) → n < 2 ^ 32 → u8 (n >> 31) ≡ n / 2 ^ 31
top_bit n h = omega arith

flag_of_flag : (b c : Bool) → through8 (flag b) (flag c) ≡ flag (b && c)
flag_of_flag b c = ground (arith, through8_if b (flag c))

zero_field : (res : ℕ) → bit_and res 0xffffffff ≡ res % 2 ^ 32
zero_field res = bit_and_mask 32 res

parity_field : (res : ℕ) → get_pf (u8 (bit_and res 0xff)) ≡ flag (is_odd res)
parity_field res =
    let e : u8 (bit_and res 0xff) ≡ res % 2 ^ 8 = omega (arith, bit_and_mask 8 res) in
    rw e (ground (arith, get_pf_lem (res % 2 ^ 8)))

sign_test : (s : Bool) → ((flag s == 1) ≡ s) × ((flag s == 0) ≡ not s)
sign_test s = ground arith

pub update_flag_eq :
    (num1 num2 res : ℕ) (b : Bool)
    → num1 < 2 ^ 32
    → num2 < 2 ^ 32
    → res < 2 ^ 33
    → update_flag num1 num2 res (flag b)
      ≡ pack_flags
          (flag (b && add_overflows (num1 / 2 ^ 31) (num2 / 2 ^ 31) (flag (res / 2 ^ 31 % 2 == 1))))
          (flag (b && leb (2 ^ 32) res))
          (flag (res % 2 ^ 32 == 0))
          (flag (res / 2 ^ 31 % 2 == 1))
          (flag (is_odd res))
unfolding update_flag
update_flag_eq num1 num2 res b h1 h2 h3 = rw (
  carry_field res b h3,
  sign_field res,
  top_bit num1 h1,
  top_bit num2 h2,
  zero_field res,
  parity_field res,
  flag_of_flag,
)

-- `update_flag` for a result of at most 33 bits; `b` says whether carry and overflow are set.
pub update_flag-HasFlags :
    (num1 num2 res : ℕ) (b : Bool)
    → num1 < 2 ^ 32
    → num2 < 2 ^ 32
    → res < 2 ^ 33
    → HasFlags
        (update_flag num1 num2 res (flag b))
        (b && add_overflows (num1 / 2 ^ 31) (num2 / 2 ^ 31) (flag (res / 2 ^ 31 % 2 == 1)))
        (b && leb (2 ^ 32) res)
        (res % 2 ^ 32 == 0)
        (res / 2 ^ 31 % 2 == 1)
        (is_odd res)
update_flag-HasFlags num1 num2 res b h1 h2 h3 =
    let (o, c, z, s, p) = get-pack_flags _ _ _ _ _ in
    rw (update_flag_eq num1 num2 res b h1 h2 h3)
      (record { overflow = o; carry = c; is_zero = z; sign = s; parity = p })
