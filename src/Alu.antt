-- ===== src/Alu.antt =====
-- src/alu.c: the operations of the arithmetic unit. The C functions write `spe_regs.scr` of the
-- CPU around them and return the result; here an operation returns both.
pub mod Flags
pub mod Parity
pub mod Add
pub mod Scr
use wolf_cpuemulator.Common.{ℕ, ◌+◌, ◌-◌, ◌*◌, ◌/◌, ◌%◌, ◌^◌, bit_and, bit_or, bit_xor, ◌&&◌, ◌||◌}
use wolf_cpuemulator.Common.{u8, u16, u32, u64, neg, not32, sar32, ◌<<◌, ◌>>◌, ◌==◌, flag, not}
use wolf_cpuemulator.Common.{is_set}
use wolf_cpuemulator.Logic.{through8}

pub record AluResult : Type 0 where
  pub res : ℕ
  pub scr : ℕ

abbrev scr_of_flag : ℕ
scr_of_flag = 0

abbrev scr_sf_flag : ℕ
scr_sf_flag = 1

abbrev scr_zf_flag : ℕ
scr_zf_flag = 2

abbrev scr_pf_flag : ℕ
scr_pf_flag = 3

abbrev scr_cf_flag : ℕ
scr_cf_flag = 4

-- GET_SCR_OF_FLAG and its like
unfoldable pub get_scr_of_flag : ℕ → ℕ
get_scr_of_flag scr = bit_and (scr >> scr_of_flag) 1

unfoldable pub get_scr_sf_flag : ℕ → ℕ
get_scr_sf_flag scr = bit_and (scr >> scr_sf_flag) 1

unfoldable pub get_scr_zf_flag : ℕ → ℕ
get_scr_zf_flag scr = bit_and (scr >> scr_zf_flag) 1

unfoldable pub get_scr_pf_flag : ℕ → ℕ
get_scr_pf_flag scr = bit_and (scr >> scr_pf_flag) 1

unfoldable pub get_scr_cf_flag : ℕ → ℕ
get_scr_cf_flag scr = bit_and (scr >> scr_cf_flag) 1

unfoldable pub get_pf : ℕ → ℕ
get_pf x =
    bit_xor
      (bit_xor
        (bit_xor (bit_xor (x >> 7) (bit_and (x >> 6) 1))
          (bit_xor (bit_and (x >> 5) 1) (bit_and (x >> 4) 1)))
        (bit_xor (bit_and (x >> 3) 1) (bit_and (x >> 2) 1)))
      (bit_xor (bit_and (x >> 1) 1) (bit_and x 1))

-- The five flags side by side, as `update_flag` stores them.
unfoldable pub pack_flags : ℕ → ℕ → ℕ → ℕ → ℕ → ℕ
pack_flags of cf zf sf pf = u16 (
    bit_or
      (bit_or (bit_or (bit_or (of << scr_of_flag) (cf << scr_cf_flag)) (zf << scr_zf_flag))
        (sf << scr_sf_flag))
      (pf << scr_pf_flag))

-- What is stored into `spe_regs.scr`; `res` is a `uint64_t`, `bit` says whether carries count.
unfoldable pub update_flag : ℕ → ℕ → ℕ → ℕ → ℕ
update_flag num1 num2 res bit =
    let cf = through8 bit (res >> 32) in
    let sf = u8 (bit_and (res >> 31) 1) in
    let numflag1 = u8 (num1 >> 31) in
    let numflag2 = u8 (num2 >> 31) in
    let of = through8 bit (
      flag (
        (sf == 1 && numflag1 == 0 && numflag2 == 0)
        || (sf == 0 && numflag1 == 1 && numflag2 == 1))) in
    let res_low8 = u8 (bit_and res 0xff) in
    let pf = get_pf res_low8 in
    let zf = flag (bit_and res 0xffffffff == 0) in pack_flags of cf zf sf pf

unfoldable pub alu_add_op : ℕ → ℕ → ℕ → AluResult
alu_add_op idata1 idata2 sgn =
    let res = u64 (bit_and idata1 0xffffffff + bit_and idata2 0xffffffff + u8 sgn) in
    record { res = u32 res; scr = update_flag idata1 idata2 res 1 }

unfoldable pub alu_and_op : ℕ → ℕ → AluResult
alu_and_op idata1 idata2 =
    let res = bit_and idata1 idata2 in record { res = res; scr = update_flag idata1 idata2 res 0 }

unfoldable pub alu_or_op : ℕ → ℕ → AluResult
alu_or_op idata1 idata2 =
    let res = bit_or idata1 idata2 in record { res = res; scr = update_flag idata1 idata2 res 0 }

unfoldable pub alu_xor_op : ℕ → ℕ → AluResult
alu_xor_op idata1 idata2 =
    let res = bit_xor idata1 idata2 in record { res = res; scr = update_flag idata1 idata2 res 0 }

-- `~idata1`
unfoldable pub alu_neg_op : ℕ → ℕ → AluResult
alu_neg_op idata1 idata2 =
    let res = not32 idata1 in record { res = res; scr = update_flag idata1 idata2 res 0 }

-- `-idata1`
unfoldable pub alu_not_op : ℕ → ℕ → AluResult
alu_not_op idata1 idata2 =
    let res = neg 32 idata1 in record { res = res; scr = update_flag idata1 idata2 res 0 }

-- A shift by 32 or more has no meaning in C.
unfoldable pub alu_ml_op : ℕ → ℕ → ℕ → AluResult
alu_ml_op idata1 idata2 is_alu =
    let res = u32 (idata1 << idata2) in record { res = res; scr = update_flag idata1 idata2 res 0 }

-- `Through8` takes and returns a byte.
unfoldable pub alu_mr_op : ℕ → ℕ → ℕ → AluResult
alu_mr_op idata1 idata2 is_alu =
    let res =
      bit_or (through8 is_alu (sar32 idata1 idata2))
        (through8 (flag (not (is_set is_alu))) (idata1 >> idata2)) in
    record { res = res; scr = update_flag idata1 idata2 res 0 }
