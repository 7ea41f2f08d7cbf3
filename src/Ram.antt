-- ===== src/Ram.antt =====
-- src/ram_eff.c: main memory as a two-level table of blocks that are allocated when first touched.
pub mod Cells
pub mod Operate
use wolf_cpuemulator.Common.{
  ℕ, zero, suc, ◌+◌, ◌-◌, ◌^◌, Bool, ◌==◌, ◌&&◌, leb, flag, if◌then◌else◌,
}
use wolf_cpuemulator.Common.{Option, none, some, List, [], ◌∷◌, ◌++◌, replicate, get_or}
use wolf_cpuemulator.Common.{u32, not32, ◌>>◌, ◌&&&◌}
use wolf_cpuemulator.Endian.{Bytes4, get_data_bit}

-- `ram_page_table`: `none` is a block that is not allocated.
pub record Ram : Type 0 where
  pub page : ℕ → ℕ → Option (ℕ → ℕ)

-- RAM_PDE_POS, RAM_PTE_POS, RAM_PTE_MASK and RAM_OFFSET_MASK, as the macros compute them
abbrev ram_pte_pos : ℕ
ram_pte_pos = 14

abbrev ram_pde_pos : ℕ
ram_pde_pos = 28

abbrev ram_pte_mask : ℕ
ram_pte_mask = 2 ^ 8 - 1

abbrev ram_offset_mask : ℕ
ram_offset_mask = 2 ^ 15 - 1

abbrev ram_size : ℕ
ram_size = 2147483648

abbrev pub pde_of : ℕ → ℕ
pde_of addr = addr >> ram_pde_pos

abbrev pub pte_of : ℕ → ℕ
pte_of addr = addr >> ram_pte_pos &&& ram_pte_mask

abbrev pub offset_of : ℕ → ℕ
offset_of addr = addr &&& ram_offset_mask

unfoldable pub set_page : Ram → ℕ → ℕ → (ℕ → ℕ) → Ram
set_page ram pde pte block = record {
  page = λ p q. if p == pde && q == pte then some block else ram.page p q;
}

-- The allocation at the head of `get_data` and `write_data`.
unfoldable pub allocate : Ram → ℕ → ℕ → Ram
unfolding set_page
allocate ram pde pte = elim (ram.page pde pte) [
  | none ↦ set_page ram pde pte (λ _. 0)
  | some block ↦ ram
]

-- `ram_page_table[pde][pte]`, once it is allocated
unfoldable pub block_of : Ram → ℕ → ℕ → ℕ → ℕ
block_of ram pde pte = elim (ram.page pde pte) [ none ↦ λ _. 0 | some block ↦ block ]

unfoldable pub get_data : Ram → ℕ → ℕ × Ram
unfolding allocate block_of
get_data ram addr =
    let ram' = allocate ram (pde_of addr) (pte_of addr) in
    (block_of ram' (pde_of addr) (pte_of addr) (offset_of addr), ram')

-- The byte enable is a parameter that the C function does not read.
unfoldable pub write_data : Ram → ℕ → ℕ → ℕ → Ram
unfolding allocate block_of
write_data ram addr value be =
    let ram' = allocate ram (pde_of addr) (pte_of addr) in
    let old = block_of ram' (pde_of addr) (pte_of addr) in
    set_page ram' (pde_of addr) (pte_of addr) (λ i. if i == offset_of addr then value else old i)

abbrev pub ram_in_opcode_rd : ℕ
ram_in_opcode_rd = 0

abbrev pub ram_in_opcode_wr : ℕ
ram_in_opcode_wr = 1

abbrev pub ram_in_opbytes_128byte : ℕ
ram_in_opbytes_128byte = 0

abbrev pub ram_in_opbytes_4byte : ℕ
ram_in_opbytes_4byte = 1

-- RAM_IN_ARGS
pub record RamInArgs : Type 0 where
  pub opcode : ℕ
  pub opbytes : ℕ
  pub paddr : ℕ
  pub val4b_in : Bytes4
  pub be : ℕ

-- RAM_OPERATOR_RESULT; `bytes` is the array of L2_SIZE bytes.
pub record RamOperatorResult : Type 0 where
  pub status_flag : ℕ
  pub bytes : List ℕ

abbrev pub l2_size : ℕ
l2_size = 128

-- The loop of the read case: the bytes from `addr` on, `left` of them.
unfoldable pub read_bytes : Ram → ℕ → ℕ → List ℕ × Ram
unfolding get_data
read_bytes ram addr zero = ([], ram)
read_bytes ram addr (suc left) =
    let (byte, ram') = get_data ram addr in
    let (rest, ram'') = read_bytes ram' (u32 (addr + 1)) left in (byte ∷ rest, ram'')

unfoldable pub write_4_bytes : Ram → ℕ → Bytes4 → ℕ → Ram
unfolding write_data
write_4_bytes ram addr v be =
    let ram0 = write_data ram addr v.b0 (be &&& 1) in
    let ram1 = write_data ram0 (u32 (addr + 1)) v.b1 (get_data_bit 1 be) in
    let ram2 = write_data ram1 (u32 (addr + 2)) v.b2 (get_data_bit 2 be) in
    write_data ram2 (u32 (addr + 3)) v.b3 (get_data_bit 3 be)

abbrev op_size : ℕ → ℕ
op_size opbytes = if opbytes == ram_in_opbytes_128byte then 32 else 4

abbrev line_start : RamInArgs → ℕ
line_start input =
    if input.opbytes == ram_in_opbytes_128byte && input.opcode == ram_in_opcode_rd
    then input.paddr &&& not32 (l2_size - 1)
    else input.paddr

-- The read case: the array of the result is 0 behind what was read.
unfoldable pub operate_rd : Ram → ℕ → ℕ → ℕ → RamOperatorResult × Ram
unfolding read_bytes
operate_rd ram addr size status =
    let (bytes, ram') = read_bytes ram addr size in
    (record { status_flag = status; bytes = bytes ++ replicate (l2_size - size) 0 }, ram')

-- The flag reports an address out of range; the access is made all the same.
unfoldable pub operate : Ram → RamInArgs → RamOperatorResult × Ram
unfolding operate_rd write_4_bytes
operate ram input =
    let addr = line_start input in
    let size = op_size input.opbytes in
    let status = flag (leb ram_size (u32 (addr + size))) in
    let nothing : RamOperatorResult = record {
      status_flag = status;
      bytes = replicate l2_size 0;
    } in
    if input.opcode == ram_in_opcode_rd
    then operate_rd ram addr size status
    else if input.opcode == ram_in_opcode_wr
    then (nothing, write_4_bytes ram addr input.val4b_in input.be)
    else (nothing, ram)

-- `init_ram_unit`
unfoldable pub init_ram_unit : Ram
init_ram_unit = record { page = λ _ _. none }
