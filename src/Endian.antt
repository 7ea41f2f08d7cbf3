-- ===== src/Endian.antt =====
-- include/tools/endian.h and the masks of include/global.h: four bytes and the word they make up,
-- and the copies that take only the bytes which a byte-enable mask selects.
pub mod RoundTrip
pub mod Width
use wolf_cpuemulator.Common.{List, get_elem?, set, Option, some, ◌+◌}
use wolf_cpuemulator.Common.Partial.{◌>>=◌}
use wolf_cpuemulator.Common.{ℕ, bit_and, bit_or, u8, u32, ◌<<◌, ◌>>◌, ◌==◌, flag, ◌||◌}
use wolf_cpuemulator.Logic.{through8, through32, mux8}

-- `uint8_t data[4]`
pub record Bytes4 : Type 0 where
  pub b0 : ℕ
  pub b1 : ℕ
  pub b2 : ℕ
  pub b3 : ℕ

abbrev pub zero_bytes : Bytes4
zero_bytes = record { b0 = 0; b1 = 0; b2 = 0; b3 = 0 }

-- SEP_INT_FOR_4_BYTES_B and SEP_INT_FOR_4_BYTES_L, stored into bytes
unfoldable pub sep_int_for_4_bytes_b : ℕ → Bytes4
sep_int_for_4_bytes_b v = record {
  b0 = u8 (v >> 24);
  b1 = bit_and (v >> 16) 0xff;
  b2 = bit_and (v >> 8) 0xff;
  b3 = bit_and v 0xff;
}

unfoldable pub sep_int_for_4_bytes_l : ℕ → Bytes4
sep_int_for_4_bytes_l v = record {
  b0 = bit_and v 0xff;
  b1 = bit_and (v >> 8) 0xff;
  b2 = bit_and (v >> 16) 0xff;
  b3 = u8 (v >> 24);
}

-- GET_INT_FROM_4_BYTES_B and GET_INT_FROM_4_BYTES_L, read as `uint32_t`
unfoldable pub get_int_from_4_bytes_b : Bytes4 → ℕ
get_int_from_4_bytes_b a = u32 (bit_or (bit_or (bit_or (a.b0 << 24) (a.b1 << 16)) (a.b2 << 8)) a.b3)

unfoldable pub get_int_from_4_bytes_l : Bytes4 → ℕ
get_int_from_4_bytes_l a = u32 (bit_or (bit_or (bit_or (a.b3 << 24) (a.b2 << 16)) (a.b1 << 8)) a.b0)

-- GET_DATA_BIT0 to GET_DATA_BIT3
abbrev pub get_data_bit : ℕ → ℕ → ℕ
get_data_bit i data' = bit_and (data' >> i) 1

-- `&array[i]` as four bytes; past the end of the array it is `none`.
unfoldable pub bytes4_at : List ℕ → ℕ → Option Bytes4
bytes4_at array i = do
  b0 ← get_elem? array i
  b1 ← get_elem? array (i + 1)
  b2 ← get_elem? array (i + 2)
  b3 ← get_elem? array (i + 3)
  some (record { b0 = b0; b1 = b1; b2 = b2; b3 = b3 })

-- Four stores from `array[i]` on
unfoldable pub set_bytes4 : List ℕ → ℕ → Bytes4 → List ℕ
set_bytes4 array i v = set (set (set (set array i v.b0) (i + 1) v.b1) (i + 2) v.b2) (i + 3) v.b3

-- SEP_INT_FOR_2_BYTES_L, stored into bytes, and GET_INT_FROM_2_BYTES_L
unfoldable pub sep_int_for_2_bytes_l : ℕ → ℕ × ℕ
sep_int_for_2_bytes_l v = (bit_and v 0xff, bit_and (v >> 8) 0xff)

unfoldable pub get_int_from_2_bytes_l : ℕ → ℕ → ℕ
get_int_from_2_bytes_l b0 b1 = bit_or (b1 << 8) b0

-- COPY_BYTE_4_ARRAY_WITH_BE: the new contents of `ori`
unfoldable pub copy_byte_4_array_with_be : Bytes4 → ℕ → Bytes4
copy_byte_4_array_with_be tar be = record {
  b0 = through8 (bit_and be 1) tar.b0;
  b1 = through8 (get_data_bit 1 be) tar.b1;
  b2 = through8 (get_data_bit 2 be) tar.b2;
  b3 = through8 (get_data_bit 3 be) tar.b3;
}

-- COPY_BYTE_4_ARRAY_SELECTED_WITH_BE: the new contents of `ori`
unfoldable pub copy_byte_4_array_selected_with_be : Bytes4 → Bytes4 → ℕ → Bytes4
copy_byte_4_array_selected_with_be ori tar be = record {
  b0 = mux8 (bit_and be 1) ori.b0 tar.b0;
  b1 = mux8 (get_data_bit 1 be) ori.b1 tar.b1;
  b2 = mux8 (get_data_bit 2 be) ori.b2 tar.b2;
  b3 = mux8 (get_data_bit 3 be) ori.b3 tar.b3;
}

-- DATA32_MASK_BE
unfoldable pub data32_mask_be : ℕ → ℕ → ℕ → ℕ
data32_mask_be origin dest be = u32 (
    bit_or
      (bit_or
        (bit_or (mux8 (bit_and be 1) (bit_and origin 0xff) (bit_and dest 0xff))
          (mux8 (bit_and (be >> 1) 1) (bit_and (origin >> 8) 0xff) (bit_and (dest >> 8) 0xff) << 8))
        (mux8 (bit_and (be >> 2) 1) (bit_and (origin >> 16) 0xff) (bit_and (dest >> 16) 0xff)
          << 16))
      (mux8 (bit_and (be >> 3) 1) (origin >> 24) (dest >> 24) << 24))

-- EXFLAG_OPERATE_4_BITS and its like
abbrev pub operate_4_bits : ℕ
operate_4_bits = 0

abbrev pub operate_1_bits : ℕ
operate_1_bits = 1

abbrev operate_2_bits_low : ℕ
operate_2_bits_low = 2

abbrev pub operate_2_bits_high : ℕ
operate_2_bits_high = 3

-- ICODE_EXFLAG_MOV_BE: the bytes that a width code enables
unfoldable pub mov_be : ℕ → ℕ
mov_be code =
    bit_or
      (bit_or
        (bit_or (through32 (flag (code == operate_1_bits)) 1)
          (through32 (flag (code == operate_2_bits_low)) 3))
        (through32 (flag (code == operate_4_bits)) 15))
      (through32 (flag (code == operate_2_bits_high)) 3)

-- BE_DATA: how many bytes a mask enables, as the code counts them
unfoldable pub be_data : ℕ → ℕ
be_data be =
    bit_or (bit_or (through8 (flag (be == 1)) 1) (through8 (flag (be == 3)) 2))
      (through8 (flag (be == 15 || be == 3)) 4)
