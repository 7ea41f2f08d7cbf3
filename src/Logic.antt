-- ===== src/Logic.antt =====
-- src/logics/logic_alg.c: the selectors written as masks, as a circuit would be. A C argument is
-- converted to its parameter's type at the call, so each function casts its arguments first.
pub mod Select
use wolf_cpuemulator.Common.{ℕ, bit_and, bit_or, bit_xor, u8, u16, u32, u64, neg}

unfoldable pub through32 : ℕ → ℕ → ℕ
through32 cnd value = bit_and (neg 32 (u8 cnd)) (u32 value)

unfoldable pub through16 : ℕ → ℕ → ℕ
through16 cnd value = bit_and (neg 16 (u8 cnd)) (u16 value)

unfoldable pub through64 : ℕ → ℕ → ℕ
through64 cnd value = bit_and (neg 64 (u8 cnd)) (u64 value)

unfoldable pub through8 : ℕ → ℕ → ℕ
through8 cnd value = bit_and (neg 8 (u8 cnd)) (u8 value)

unfoldable pub mux64 : ℕ → ℕ → ℕ → ℕ
mux64 cnd origin new_value =
    let cnd64 = u8 cnd in
    let cnd64mask = neg 64 cnd64 in
    let fcnd64 = bit_xor cnd64 1 in
    let fcnd64mask = neg 64 fcnd64 in
    bit_or (bit_and cnd64mask (u64 new_value)) (bit_and fcnd64mask (u64 origin))

unfoldable pub mux32 : ℕ → ℕ → ℕ → ℕ
mux32 cnd origin new_value =
    let cnd32 = u8 cnd in
    let cnd32mask = neg 32 cnd32 in
    let fcnd32 = bit_xor cnd32 1 in
    let fcnd32mask = neg 32 fcnd32 in
    bit_or (bit_and cnd32mask (u32 new_value)) (bit_and fcnd32mask (u32 origin))

unfoldable pub mux8 : ℕ → ℕ → ℕ → ℕ
mux8 cnd origin new_value =
    let cnd8 = u8 cnd in
    let cnd8mask = neg 8 cnd8 in
    let fcnd8 = bit_xor cnd8 1 in
    let fcnd8mask = neg 8 fcnd8 in
    bit_or (bit_and cnd8mask (u8 new_value)) (bit_and fcnd8mask (u8 origin))
