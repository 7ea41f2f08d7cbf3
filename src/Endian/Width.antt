-- ===== src/Endian/Width.antt =====
-- DATA32_MASK_BE and ICODE_EXFLAG_MOV_BE of include/global.h: a write of one, two or four bytes.
use wolf_cpuemulator.Common.{ℕ, zero, suc, ◌+◌, ◌*◌, ◌/◌, ◌%◌, ◌^◌, ◌<◌, ◌≡◌, arith}
use wolf_cpuemulator.Common.{Bool, true, false, bit_and, bit_or, flag, if◌then◌else◌, ◌==◌}
use wolf_cpuemulator.Common.{◌<<◌, ◌>>◌}
use wolf_cpuemulator.Common.Bits.{bit_and_mask, bit_or_high}
use wolf_cpuemulator.Logic.{through32, mux8}
use wolf_cpuemulator.Logic.Select.{mux8_if}
use wolf_cpuemulator.Endian.{data32_mask_be, mov_be, operate_1_bits, operate_4_bits}

abbrev choose_byte : Bool → ℕ → ℕ → ℕ
choose_byte b o n = if b then n % 256 else o % 256

-- Four bytes, the lowest first, put side by side by `|`.
or_bytes_low_first :
    (a b c d : ℕ)
    → a < 256
    → b < 256
    → c < 256
    → bit_or (bit_or (bit_or a (b << 8)) (c << 16)) (d << 24)
      ≡ d * 2 ^ 24 + c * 2 ^ 16 + b * 2 ^ 8 + a
or_bytes_low_first a b c d ha hb hc = ground (
  arith,
  bit_or_high 8 b a ha,
  bit_or_high 16 c (b * 2 ^ 8 + a) (omega arith),
  bit_or_high 24 d (c * 2 ^ 16 + (b * 2 ^ 8 + a)) (omega arith),
)

choose_byte-lt : (b : Bool) (o n : ℕ) → choose_byte b o n < 256
choose_byte-lt b o n = ground arith

mux8_byte :
    (b : Bool) (o n : ℕ) → mux8 (flag b) (bit_and o 0xff) (bit_and n 0xff) ≡ choose_byte b o n
mux8_byte b o n =
    ground (arith, mux8_if b (bit_and o 0xff) (bit_and n 0xff), bit_and_mask 8 o, bit_and_mask 8 n)

abbrev enables : Bool → Bool → Bool → Bool → ℕ
enables e0 e1 e2 e3 = flag e0 + 2 * flag e1 + 4 * flag e2 + 8 * flag e3

bits-enables :
    (e0 e1 e2 e3 : Bool)
    → let be = enables e0 e1 e2 e3 in
      (bit_and be 1 ≡ flag e0)
      × (bit_and (be >> 1) 1 ≡ flag e1)
      × (bit_and (be >> 2) 1 ≡ flag e2)
      × (bit_and (be >> 3) 1 ≡ flag e3)
bits-enables e0 e1 e2 e3 = ground arith

merged :
    (e0 e1 e2 e3 : Bool) (o n : ℕ)
    → data32_mask_be o n (enables e0 e1 e2 e3)
      ≡ choose_byte e3 (o >> 24) (n >> 24) * 2 ^ 24
        + choose_byte e2 (o >> 16) (n >> 16) * 2 ^ 16
        + choose_byte e1 (o >> 8) (n >> 8) * 2 ^ 8
        + choose_byte e0 o n
unfolding data32_mask_be
merged e0 e1 e2 e3 o n =
    let (b0, b1, b2, b3) = bits-enables e0 e1 e2 e3 in
    let m0 = mux8_byte e0 o n in
    let m1 = mux8_byte e1 (o >> 8) (n >> 8) in
    let m2 = mux8_byte e2 (o >> 16) (n >> 16) in
    let m3 = mux8_if e3 (o >> 24) (n >> 24) in
    let l0 = choose_byte-lt e0 o n in
    let l1 = choose_byte-lt e1 (o >> 8) (n >> 8) in
    let l2 = choose_byte-lt e2 (o >> 16) (n >> 16) in
    let l3 = choose_byte-lt e3 (o >> 24) (n >> 24) in
    rw (b0, b1, b2, b3, m0, m1, m2, m3, or_bytes_low_first _ _ _ _ l0 l1 l2) (omega arith)

-- What a write of each width code leaves: code 0 replaces the word, code 1 its lowest byte, and
-- codes 2 and 3 both replace the two lowest bytes.
pub data32_mask_be-mov_be :
    (code o n : ℕ)
    → code < 4
    → o < 2 ^ 32
    → n < 2 ^ 32
    → data32_mask_be o n (mov_be code) ≡ (
        if code == operate_4_bits
        then n
        else if code == operate_1_bits
        then o / 2 ^ 8 * 2 ^ 8 + n % 2 ^ 8
        else o / 2 ^ 16 * 2 ^ 16 + n % 2 ^ 16)
unfolding mov_be through32
data32_mask_be-mov_be zero o n h ho hn = omega (arith, merged true true true true o n)
data32_mask_be-mov_be (suc zero) o n h ho hn = omega (arith, merged true false false false o n)
data32_mask_be-mov_be (suc (suc zero)) o n h ho hn = omega (arith, merged true true false false o n)
data32_mask_be-mov_be (suc (suc (suc zero))) o n h ho hn =
    omega (arith, merged true true false false o n)
data32_mask_be-mov_be (suc (suc (suc (suc code)))) o n h ho hn = absurd (omega arith)
