-- ===== src/Ram/Cells.antt =====
-- Which addresses of src/ram_eff.c name the same byte, and reads after writes.
use wolf_cpuemulator.Common.{ℕ, ◌/◌, ◌%◌, ◌^◌, ◌≡◌, arith, ◌∙◌, sym, Bool}
use wolf_cpuemulator.Common.{◌==◌, ◌&&◌, if◌then◌else◌, ◌>>◌}
use wolf_cpuemulator.Common.Bits.{bit_and_mask}
use wolf_cpuemulator.Ram.{Ram, get_data, write_data, allocate, block_of, set_page}
use wolf_cpuemulator.Ram.{pde_of, pte_of, offset_of}

-- The byte that a read at an address gives.
unfoldable pub byte_at : Ram → ℕ → ℕ
byte_at ram addr = (get_data ram addr).0

-- Two addresses reach the same byte of the same block.
abbrev pub same_cell : ℕ → ℕ → Bool
same_cell a b = a / 2 ^ 28 == b / 2 ^ 28 && a % 2 ^ 22 == b % 2 ^ 22

same_place :
    (a b : ℕ)
    → (pde_of b == pde_of a && pte_of b == pte_of a && offset_of b == offset_of a) ≡ same_cell a b
same_place a b = ground (
  arith,
  bit_and_mask 8 (a >> 14),
  bit_and_mask 8 (b >> 14),
  bit_and_mask 15 a,
  bit_and_mask 15 b,
)

block_of-allocate :
    (ram : Ram) (p q p' q' i : ℕ) → block_of (allocate ram p q) p' q' i ≡ block_of ram p' q' i
unfolding allocate block_of
block_of-allocate ram p q p' q' i = ground (arith)

byte_at-block :
    (ram : Ram) (a : ℕ) → byte_at ram a ≡ block_of ram (pde_of a) (pte_of a) (offset_of a)
unfolding byte_at get_data
byte_at-block ram a = block_of-allocate ram (pde_of a) (pte_of a) _ _ _

block_of-set_page :
    (ram : Ram) (p q p' q' i : ℕ) (f : ℕ → ℕ)
    → block_of (set_page ram p q f) p' q' i
      ≡ (if p' == p && q' == q then f i else block_of ram p' q' i)
unfolding set_page block_of
block_of-set_page ram p q p' q' i f = ground arith

-- A read does not change what any address holds, though it may allocate a block.
pub byte_at-get_data : (ram : Ram) (a b : ℕ) → byte_at (get_data ram a).1 b ≡ byte_at ram b
unfolding get_data
byte_at-get_data ram a b =
    byte_at-block (allocate ram (pde_of a) (pte_of a)) b
    ∙ block_of-allocate ram (pde_of a) (pte_of a) (pde_of b) (pte_of b) (offset_of b)
    ∙ sym (byte_at-block ram b)

-- A write at `a` is read back at exactly the addresses that agree with `a` in bits 0 to 21 and in
-- bits 28 to 31; at every other address the read gives what it gave before.
pub byte_at-write_data :
    (ram : Ram) (a b v be : ℕ)
    → byte_at (write_data ram a v be) b ≡ (if same_cell a b then v else byte_at ram b)
unfolding write_data
byte_at-write_data ram a b v be =
    let ram' = allocate ram (pde_of a) (pte_of a) in
    let old = block_of ram' (pde_of a) (pte_of a) in
    let new = λ (i : ℕ). if i == offset_of a then v else old i in
    ground (
      arith,
      byte_at-block (set_page ram' (pde_of a) (pte_of a) new) b,
      byte_at-block ram b,
      block_of-set_page ram' (pde_of a) (pte_of a) (pde_of b) (pte_of b) (offset_of b) new,
      block_of-allocate ram (pde_of a) (pte_of a) (pde_of b) (pte_of b) (offset_of b),
      same_place a b,
    )
