-- ===== src/Endian/RoundTrip.antt =====
-- include/tools/endian.h: splitting a word and putting it together again.
use wolf_cpuemulator.Common.{ℕ, ◌+◌, ◌*◌, ◌^◌, ◌<◌, ◌≡◌, arith}
use wolf_cpuemulator.Common.{bit_or, ◌<<◌, ◌>>◌}
use wolf_cpuemulator.Common.Bits.{bit_and_mask, bit_or_low}
use wolf_cpuemulator.Endian.{Bytes4, sep_int_for_4_bytes_b, sep_int_for_4_bytes_l}
use wolf_cpuemulator.Endian.{get_int_from_4_bytes_b, get_int_from_4_bytes_l}

pub record AreBytes (a : Bytes4) : Type 0 where
  pub byte0 : a.b0 < 256
  pub byte1 : a.b1 < 256
  pub byte2 : a.b2 < 256
  pub byte3 : a.b3 < 256

-- Four bytes, the highest first, put side by side by `|`.
or_bytes :
    (a b c d : ℕ)
    → b < 256
    → c < 256
    → d < 256
    → bit_or (bit_or (bit_or (a << 24) (b << 16)) (c << 8)) d
      ≡ a * 2 ^ 24 + b * 2 ^ 16 + c * 2 ^ 8 + d
or_bytes a b c d hb hc hd = ground (
  arith,
  bit_or_low 24 a (a << 24) (b << 16) (omega arith) (omega arith),
  bit_or_low 16 (a * 256 + b) (a * 2 ^ 24 + b * 2 ^ 16) (c << 8) (omega arith) (omega arith),
  bit_or_low 8 (a * 2 ^ 16 + b * 256 + c) (a * 2 ^ 24 + b * 2 ^ 16 + c * 2 ^ 8) d (omega arith)
      (omega arith),
)

get_int_l_sum :
    (a : Bytes4)
    → AreBytes a
    → get_int_from_4_bytes_l a ≡ a.b3 * 2 ^ 24 + a.b2 * 2 ^ 16 + a.b1 * 2 ^ 8 + a.b0
unfolding get_int_from_4_bytes_l
get_int_l_sum a h = omega (arith, or_bytes a.b3 a.b2 a.b1 a.b0 h.byte2 h.byte1 h.byte0)

get_int_b_sum :
    (a : Bytes4)
    → AreBytes a
    → get_int_from_4_bytes_b a ≡ a.b0 * 2 ^ 24 + a.b1 * 2 ^ 16 + a.b2 * 2 ^ 8 + a.b3
unfolding get_int_from_4_bytes_b
get_int_b_sum a h = omega (arith, or_bytes a.b0 a.b1 a.b2 a.b3 h.byte1 h.byte2 h.byte3)

pub sep_int_l-AreBytes : (v : ℕ) → AreBytes (sep_int_for_4_bytes_l v)
unfolding sep_int_for_4_bytes_l
sep_int_l-AreBytes v =
    omega (arith, bit_and_mask 8 v, bit_and_mask 8 (v >> 8), bit_and_mask 8 (v >> 16))

sep_int_b-AreBytes : (v : ℕ) → AreBytes (sep_int_for_4_bytes_b v)
unfolding sep_int_for_4_bytes_b
sep_int_b-AreBytes v =
    omega (arith, bit_and_mask 8 v, bit_and_mask 8 (v >> 8), bit_and_mask 8 (v >> 16))

-- A 32-bit word that is split into four bytes and put together again in the same byte order is
-- the same word, in both byte orders.
pub get_int-sep_int :
    (v : ℕ)
    → v < 2 ^ 32
    → (get_int_from_4_bytes_l (sep_int_for_4_bytes_l v) ≡ v)
      × (get_int_from_4_bytes_b (sep_int_for_4_bytes_b v) ≡ v)
unfolding sep_int_for_4_bytes_l sep_int_for_4_bytes_b
get_int-sep_int v h = (
  omega (
    arith,
    get_int_l_sum (sep_int_for_4_bytes_l v) (sep_int_l-AreBytes v),
    bit_and_mask 8 v,
    bit_and_mask 8 (v >> 8),
    bit_and_mask 8 (v >> 16),
  ),
  omega (
    arith,
    get_int_b_sum (sep_int_for_4_bytes_b v) (sep_int_b-AreBytes v),
    bit_and_mask 8 v,
    bit_and_mask 8 (v >> 8),
    bit_and_mask 8 (v >> 16),
  ),
)

-- Four bytes that are put together to a word and split again are the same bytes.
sep_int-get_int : (a : Bytes4) → AreBytes a → sep_int_for_4_bytes_l (get_int_from_4_bytes_l a) ≡ a
unfolding sep_int_for_4_bytes_l
sep_int-get_int a h =
    let w = get_int_from_4_bytes_l a in
    ground (
      arith,
      get_int_l_sum a h,
      bit_and_mask 8 w,
      bit_and_mask 8 (w >> 8),
      bit_and_mask 8 (w >> 16),
    )
