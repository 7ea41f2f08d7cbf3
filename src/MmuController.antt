-- ===== src/MmuController.antt =====
-- The page walk of src/controllers/mmu_controller.c: `check_status` and `paddr_get`.
pub mod Walk
pub mod Access
pub mod Store
pub mod Reread
pub mod Fault
pub mod Kept
pub mod Bounds
pub mod Enumerate
use wolf_cpuemulator.Common.{
  ℕ, ◌+◌, ◌-◌, ◌^◌, Bool, ◌==◌, ◌&&◌, not, is_set, if◌then◌else◌, List, get_or,
}
use wolf_cpuemulator.Common.{u16, u32, ◌>>◌, ◌<<◌, ◌&&&◌, ◌|||◌}
use wolf_cpuemulator.Logic.{through8}
use wolf_cpuemulator.Endian.{Bytes4, get_int_from_4_bytes_l}
use wolf_cpuemulator.Ram.{Ram}
use wolf_cpuemulator.MemController.{RamRdStatus, rd_memory_4b}
use wolf_cpuemulator.Cpu.State.{SpecialRegisters, is_in_kern_mode, is_pgo_on}

-- BCR_RAM_ERR_* and BCR_PAGE_STAT_*
abbrev pub ram_err_ok : ℕ
ram_err_ok = 0

abbrev pub ram_err_dmem_error : ℕ
ram_err_dmem_error = 1

abbrev page_stat_access_denied : ℕ
page_stat_access_denied = 6

abbrev page_stat_not_exec : ℕ
page_stat_not_exec = 7

abbrev page_stat_page_fault : ℕ
page_stat_page_fault = 8

abbrev vaddr_offset_pte : ℕ
vaddr_offset_pte = 12

abbrev vaddr_offset_pde : ℕ
vaddr_offset_pde = 22

-- PDE_GET_OFFSET, PDE_GET_PREPARED, PDE_GET_ACCESS and PDE_GET_PERMISSION
abbrev pub pde_get_offset : ℕ → ℕ
pde_get_offset pde = pde >> 12

abbrev pub pde_get_prepared : ℕ → ℕ
pde_get_prepared pde = pde >> 11 &&& 1

abbrev pde_get_access : ℕ → ℕ
pde_get_access pde = pde >> 10 &&& 1

abbrev pde_get_permission : ℕ → ℕ
pde_get_permission pde = pde >> 8 &&& 1

-- `check_status`; `code` is the field of CPU_MMU_BEHAVIOR.
unfoldable pub check_status : SpecialRegisters → ℕ → ℕ → ℕ
check_status spe pde code =
    if not (is_set (pde_get_access pde)) && not (is_in_kern_mode spe.bcr)
    then page_stat_access_denied
    else if not (is_set (pde_get_permission pde)) && is_set code
    then page_stat_not_exec
    else if not (is_set (pde_get_prepared pde))
    then page_stat_page_fault
    else ram_err_ok

-- WOLF_PADDR_GET
pub record PaddrGet : Type 0 where
  pub addr : ℕ
  pub stat : ℕ

-- The word that `offset4` holds
abbrev pub first_word : List ℕ → ℕ
first_word bytes = get_int_from_4_bytes_l (record {
  b0 = get_or bytes 0 0;
  b1 = get_or bytes 1 0;
  b2 = get_or bytes 2 0;
  b3 = get_or bytes 3 0;
})

abbrev pub failed : ℕ → PaddrGet
failed stat = record { addr = 0; stat = stat }

-- The walk from the page table's entry on: `table` is the base that the directory gave.
unfoldable pub walk_table : SpecialRegisters → Ram → ℕ → ℕ → ℕ → PaddrGet × Ram
unfolding check_status
walk_table spe ram table vaddr code =
    let offset = u16 (vaddr &&& 2 ^ 12 - 1) in
    let pte = u16 (vaddr >> vaddr_offset_pte &&& 2 ^ 22 - 1) in
    let (stat, ram') = rd_memory_4b ram (table ||| pte << 2) 0b1111 in
    let error = through8 stat.dmem_error ram_err_dmem_error in
    let pdeitem = first_word stat.bytes in
    let checked = check_status spe pdeitem code in
    (
      if is_set error
          then failed error
          else if is_set checked
          then failed checked
          else record { addr = u32 (pde_get_offset pdeitem << 12) ||| offset; stat = ram_err_ok },
      ram',
    )

-- The whole walk, once paging is on
unfoldable pub walk : SpecialRegisters → Ram → ℕ → ℕ → PaddrGet × Ram
unfolding walk_table
walk spe ram vaddr code =
    let pde = u16 (vaddr >> vaddr_offset_pde) in
    let (stat, ram') = rd_memory_4b ram (u32 (spe.pg_mode_base_addr_reg + (pde << 2))) 0b1111 in
    let error = through8 stat.dmem_error ram_err_dmem_error in
    let directory = first_word stat.bytes in
    if is_set error
    then (failed error, ram')
    else if not (is_set (pde_get_prepared directory))
    then (failed page_stat_page_fault, ram')
    else walk_table spe ram' (u32 (pde_get_offset directory << 12)) vaddr code

unfoldable pub paddr_get : SpecialRegisters → Ram → ℕ → ℕ → PaddrGet × Ram
unfolding walk
paddr_get spe ram vaddr code =
    if is_pgo_on spe.bcr
    then walk spe ram vaddr code
    else (record { addr = vaddr; stat = ram_err_ok }, ram)
