-- ===== src/Alu/Parity.antt =====
-- `get_pf` of src/alu.c against a count of the bits.
use wolf_cpuemulator.Common.{
  ℕ, zero, suc, ◌+◌, ◌/◌, ◌%◌, ◌<◌, ◌^◌, Bool, ◌≡◌, refl, true, ◌==◌, ==_iff,
}
use wolf_cpuemulator.Common.{all_below, all_below_sound}
use wolf_cpuemulator.Alu.{get_pf}

-- How many of the `k` low bits are set.
unfoldable pub count_bits : ℕ → ℕ → ℕ
count_bits zero x = 0
count_bits (suc k) x = x % 2 + count_bits k (x / 2)

-- Whether an odd number of bits of the lowest byte is set
abbrev pub is_odd : ℕ → Bool
is_odd v = count_bits 8 (v % 2 ^ 8) % 2 == 1

parity_table : all_below 256 (λ x. get_pf x == count_bits 8 x % 2) ≡ true
unfolding all_below get_pf count_bits
parity_table = refl

-- The parity flag of a byte is 1 exactly when an odd number of its eight bits is set.
pub get_pf_lem : (x : ℕ) → x < 256 → get_pf x ≡ count_bits 8 x % 2
get_pf_lem x h =
    (==_iff (get_pf x) _).0
      (all_below_sound 256 (λ x. get_pf x == count_bits 8 x % 2) x parity_table h)
