-- ===== src/MmuController/Walk.antt =====
-- What the page walk computes, from the two entries that it reads.
use wolf_cpuemulator.Common.{
  ℕ, ◌+◌, ◌-◌, ◌*◌, ◌/◌, ◌%◌, ◌^◌, ◌<◌, ◌≡◌, refl, arith, true, ◌==◌, ◌&&◌, not,
}
use wolf_cpuemulator.Common.{
  ◌∙◌, Bool-cases, inl, inr, is_set, if◌then◌else◌, u32, u16, ◌>>◌, ◌<<◌, ◌&&&◌, ◌|||◌,
}
use wolf_cpuemulator.Common.Bits.{bit_and_mask, bit_or_fields}
use wolf_cpuemulator.Logic.{through8}
use wolf_cpuemulator.Endian.{get_int_from_4_bytes_l}
use wolf_cpuemulator.Ram.{Ram}
use wolf_cpuemulator.Ram.Cells.{byte_at}
use wolf_cpuemulator.Ram.Operate.{read_bytes_lem}
use wolf_cpuemulator.MemController.RoundTrip.{rd_memory_4b-in_range}
use wolf_cpuemulator.MemController.{rd_memory_4b}
use wolf_cpuemulator.MmuController.{PaddrGet, check_status, walk, walk_table, paddr_get, first_word}
use wolf_cpuemulator.MmuController.{failed}
use wolf_cpuemulator.Cpu.State.{SpecialRegisters, is_in_kern_mode, is_pgo_on}

-- The little-endian word at an address.
unfoldable pub word_at : Ram → ℕ → ℕ
word_at ram a = get_int_from_4_bytes_l (record {
  b0 = byte_at ram a;
  b1 = byte_at ram (a + 1);
  b2 = byte_at ram (a + 2);
  b3 = byte_at ram (a + 3);
})

-- What an entry allows: bit 10 opens its page to the user, bit 8 allows execution, and bit 11 says
-- that the page is there.
abbrev page_status : SpecialRegisters → ℕ → ℕ → ℕ
page_status spe e code =
    if e / 2 ^ 10 % 2 == 0 && not (is_in_kern_mode spe.bcr)
    then 6
    else if e / 2 ^ 8 % 2 == 0 && is_set code
    then 7
    else if e / 2 ^ 11 % 2 == 0
    then 8
    else 0

check_status_lem :
    (spe : SpecialRegisters) (e code : ℕ) → check_status spe e code ≡ page_status spe e code
unfolding check_status
check_status_lem spe e code =
    ground (arith, bit_and_mask 1 (e >> 10), bit_and_mask 1 (e >> 8), bit_and_mask 1 (e >> 11))

rd_memory_4b-word_at :
    (ram : Ram) (a : ℕ)
    → a + 4 < 2 ^ 31
    → ((rd_memory_4b ram a 15).0.dmem_error ≡ 0)
      × (first_word (rd_memory_4b ram a 15).0.bytes ≡ word_at ram a)
      × ((b : ℕ) → byte_at (rd_memory_4b ram a 15).1 b ≡ byte_at ram b)
unfolding word_at
rd_memory_4b-word_at ram a h =
    let (ok, bytes, same) = rd_memory_4b-in_range ram a h in
    let (read, kept) = read_bytes_lem ram a 4 in
    let e1 : u32 (a + 1) ≡ a + 1 = omega arith in
    let e2 : u32 (a + 1 + 1) ≡ a + 2 = omega arith in
    let e3 : u32 (a + 2 + 1) ≡ a + 3 = omega arith in
    (ok, rw (bytes, read, e1, e2, e3) refl, λ b. rw same (kept b))

-- The address of the table's entry: the base that the directory's entry `d` gives, and 16 bits of
-- the virtual address, of which the upper six also select the directory's entry.
abbrev entry_address : ℕ → ℕ → ℕ
entry_address d v = (d / 2 ^ 12 * 2 ^ 12) ||| v / 2 ^ 12 % 2 ^ 16 * 4

entry_address_lem :
    (d v : ℕ)
    → d < 2 ^ 32
    → (u32 (d >> 12 << 12) ||| u16 (v >> 12 &&& 2 ^ 22 - 1) << 2) ≡ entry_address d v
entry_address_lem d v h =
    let e1 : u32 (d >> 12 << 12) ≡ d / 2 ^ 12 * 2 ^ 12 = omega arith in
    let e2 : u16 (v >> 12 &&& 2 ^ 22 - 1) << 2 ≡ v / 2 ^ 12 % 2 ^ 16 * 4 =
      omega (arith, bit_and_mask 22 (v >> 12)) in
    rw (e1, e2)

frame_address :
    (e v : ℕ)
    → e < 2 ^ 32
    → (u32 (e >> 12 << 12) ||| u16 (v &&& 2 ^ 12 - 1)) ≡ e / 2 ^ 12 * 2 ^ 12 + v % 2 ^ 12
frame_address e v h =
    let e1 : u32 (e >> 12 << 12) ≡ e / 2 ^ 12 * 2 ^ 12 = omega arith in
    let e2 : u16 (v &&& 2 ^ 12 - 1) ≡ v % 2 ^ 12 = omega (arith, bit_and_mask 12 v) in
    rw (e1, e2) (bit_or_fields 12 (e / 2 ^ 12) (v % 2 ^ 12) (omega arith))

word_at-lt : (ram : Ram) (a : ℕ) → word_at ram a < 2 ^ 32
unfolding word_at get_int_from_4_bytes_l
word_at-lt ram a = omega arith

-- The outcome of the walk, once the entry `e` of the table is read.
abbrev outcome : SpecialRegisters → ℕ → ℕ → ℕ → PaddrGet
outcome spe e v code =
    if is_set (page_status spe e code)
    then failed (page_status spe e code)
    else record { addr = e / 2 ^ 12 * 2 ^ 12 + v % 2 ^ 12; stat = 0 }

walk_table_lem :
    (spe : SpecialRegisters) (ram : Ram) (d v code : ℕ)
    → d < 2 ^ 32
    → entry_address d v + 4 < 2 ^ 31
    → ((walk_table spe ram (u32 (d >> 12 << 12)) v code).0
        ≡ outcome spe (word_at ram (entry_address d v)) v code)
      × ((b : ℕ) → byte_at (walk_table spe ram (u32 (d >> 12 << 12)) v code).1 b ≡ byte_at ram b)
unfolding walk_table through8
walk_table_lem spe ram d v code hd h =
    let a = entry_address d v in
    let e = word_at ram a in
    let (ok, word, same) = rd_memory_4b-word_at ram a h in
    rw
      (
        entry_address_lem d v hd,
        ok,
        word,
        check_status_lem spe e code,
        frame_address e v (word_at-lt ram a),
      )
      (refl, same)

word_at-same :
    (ram ram' : Ram) (a : ℕ)
    → ((b : ℕ) → byte_at ram' b ≡ byte_at ram b)
    → word_at ram' a ≡ word_at ram a
unfolding word_at
word_at-same ram ram' a same = rw (same a, same (a + 1), same (a + 2), same (a + 3)) refl

prepared_bit : (d : ℕ) → not (is_set (d >> 11 &&& 1)) ≡ (d / 2 ^ 11 % 2 == 0)
prepared_bit d = ground (arith, bit_and_mask 1 (d >> 11))

directory_index : (v : ℕ) → v < 2 ^ 32 → u16 (v >> 22) << 2 ≡ v / 2 ^ 22 * 4
directory_index v h = omega arith

-- For a 32-bit address, with paging on and both entries in reach of memory, `paddr_get` walks two tables: the directory's
-- entry is selected by bits 22 to 31 of the virtual address and needs to be present; the table's
-- entry is checked for privilege, execution and presence, in this order; then its frame and the
-- low 12 bits of the virtual address make up the physical one. The walk changes no byte of memory.
pub paddr_get_lem :
    (spe : SpecialRegisters) (ram : Ram) (v code : ℕ)
    → v < 2 ^ 32
    → is_pgo_on spe.bcr ≡ true
    → let a = u32 (spe.pg_mode_base_addr_reg + v / 2 ^ 22 * 4) in
      let d = word_at ram a in
      a + 4 < 2 ^ 31
      → entry_address d v + 4 < 2 ^ 31
      → ((paddr_get spe ram v code).0 ≡ (
          if d / 2 ^ 11 % 2 == 0
          then failed 8
          else outcome spe (word_at ram (entry_address d v)) v code))
        × ((b : ℕ) → byte_at (paddr_get spe ram v code).1 b ≡ byte_at ram b)
unfolding paddr_get walk through8
paddr_get_lem spe ram v code hv on ha he =
    let a = u32 (spe.pg_mode_base_addr_reg + v / 2 ^ 22 * 4) in
    let d = word_at ram a in
    let ram' = (rd_memory_4b ram a 15).1 in
    let (ok, word, same) = rd_memory_4b-word_at ram a ha in
    let (found, kept) = walk_table_lem spe ram' d v code (word_at-lt ram a) he in
    elim (Bool-cases (d / 2 ^ 11 % 2 == 0)) [
      | inl e ↦ rw (on, directory_index v hv, ok, word, prepared_bit d, e) (refl, same)
      | inr e ↦
          rw (on, directory_index v hv, ok, word, prepared_bit d, e)
            (rw (word_at-same ram ram' (entry_address d v) same) at found, λ b. kept b ∙ same b)
    ]
