-- ===== src/MmuController/Access.antt =====
-- src/controllers/mmu_controller.c: `mmu_memory_rd_f`, and what it is made of. What C leaves undefined
-- is `none`: an index past a line of a cache, past the registers of the MMU or past the BIOS file.
use wolf_cpuemulator.Common.{
  ℕ, ◌+◌, ◌-◌, ◌*◌, ◌==◌, ◌!=◌, not, ltb, leb, is_set, if◌then◌else◌, Option, none, some, List,
  get_or, u16, wrap, sub32, ◌>>◌, ◌<<◌, ◌&&&◌,
}
use wolf_cpuemulator.Common.Partial.{◌>>=◌}
use wolf_cpuemulator.Logic.{through32}
use wolf_cpuemulator.Endian.{Bytes4, zero_bytes, bytes4_at, copy_byte_4_array_with_be, be_data}
use wolf_cpuemulator.Ram.{Ram}
use wolf_cpuemulator.MemController.{rd_memory}
use wolf_cpuemulator.Cache.{
  CacheGroup, rd_cache_l1_groups, rd_cache_l2_groups, ld_cache_l1, ld_cache_l2,
}
use wolf_cpuemulator.Bus.{World, bus_status_error, bus_status_timeout, bus_rw_read}
use wolf_cpuemulator.Device.{base_mmio_addr}
use wolf_cpuemulator.Cpu.State.{SpecialRegisters, is_in_kern_mode}
use wolf_cpuemulator.Cpu.Fetch.{MmuStatus}
use wolf_cpuemulator.Cpu.Port.{Bus, BusSendData}
use wolf_cpuemulator.MmuController.{paddr_get, ram_err_ok, ram_err_dmem_error}

abbrev pub base_mmu_addr : ℕ
base_mmu_addr = 0xfffffd00

abbrev pub base_bios_addr : ℕ
base_bios_addr = 0xfffffe00

abbrev pub mmu_controller_regs : ℕ
mmu_controller_regs = 12

abbrev pub ram_err_align : ℕ
ram_err_align = 2

abbrev pub ram_err_bus_error : ℕ
ram_err_bus_error = 3

abbrev pub ram_err_reg_timeout : ℕ
ram_err_reg_timeout = 5

-- What stands behind the MMU: its registers, the caches, main memory, the bus and its devices.
pub record Machine (D : Type 0) : Type 0 where
  pub regs : List ℕ
  pub cache1 : ℕ → CacheGroup
  pub cache2 : ℕ → CacheGroup
  pub ram : Ram
  pub world : World D

-- A result with a status and no data, and one with data
abbrev pub refused : ℕ → MmuStatus
refused stat = record { stat = wrap 4 stat; bytes = zero_bytes }

abbrev pub answered : Bytes4 → MmuStatus
answered v = record { stat = ram_err_ok; bytes = v }

-- BE_ALIGN: where no width is known, the mask is `-1`.
abbrev pub be_align : ℕ → ℕ
be_align be = sub32 (be_data be) 1

-- `&offset[i]` as four bytes, in an array of `size` bytes
unfoldable pub offset4 : ℕ → (ℕ → ℕ) → ℕ → Option Bytes4
offset4 size offset i =
    if ltb (i + 3) size
    then some
        (record { b0 = offset i; b1 = offset (i + 1); b2 = offset (i + 2); b3 = offset (i + 3) })
    else none

module _ {D : Type 0} where
  -- Both caches miss: the line is read from memory and put into the second level.
  unfoldable pub read_line : ℕ → ℕ → ℕ → Machine D → Option (MmuStatus × Machine D)
  read_line paddr be rela_addr m =
      let (stat, ram') = rd_memory m.ram paddr in
      let m' : Machine D = record m { ram = ram' } in
      let error = wrap 4 (through32 stat.dmem_error ram_err_dmem_error) in
      let line = λ (i : ℕ). get_or stat.bytes i 0 in
      if error != ram_err_ok
      then some (refused error, m')
      else bytes4_at stat.bytes rela_addr >>= λ v. some (
        answered (copy_byte_4_array_with_be v be),
        record m' { cache2 = ld_cache_l2 m'.cache2 paddr line },
      )

  -- The first level misses. A hit of the second one loads 16 bytes of its line into the first.
  unfoldable pub read_second : ℕ → ℕ → Machine D → Option (MmuStatus × Machine D)
  read_second paddr be m =
      let (resl2, cache2') = rd_cache_l2_groups m.cache2 paddr in
      let m' : Machine D = record m { cache2 = cache2' } in
      let from = resl2.rela_addr >> 2 << 2 in
      let found = offset4 128 resl2.offset resl2.rela_addr >>= λ v.
      (if ltb 128 (from + 16)
        then none
        else some (
          answered (copy_byte_4_array_with_be v be),
          record m' { cache1 = ld_cache_l1 m'.cache1 paddr (λ i. resl2.offset (from + i)) },
        )) in
      if is_set resl2.hit then found else read_line paddr be (resl2.rela_addr) m'

  unfoldable pub read_memory : ℕ → ℕ → Machine D → Option (MmuStatus × Machine D)
  read_memory paddr be m =
      let (resl1, cache1') = rd_cache_l1_groups m.cache1 paddr in
      let m' : Machine D = record m { cache1 = cache1' } in
      let found = offset4 32 resl1.offset resl1.rela_addr >>= λ v.
      some (answered (copy_byte_4_array_with_be v be), m') in
      if is_set resl1.hit then found else read_second paddr be m'

  unfoldable pub read_mmio : Bus (World D) → ℕ → ℕ → Machine D → MmuStatus × Machine D
  read_mmio bus paddr be m =
      let request : BusSendData = record {
        bytes = zero_bytes;
        be = be;
        status = 0;
        read_write = bus_rw_read;
      } in
      let (bits, world') = bus.recv_data paddr request m.world in
      (
        if bits.status == bus_status_error
            then refused ram_err_bus_error
            else if bits.status == bus_status_timeout
            then refused ram_err_reg_timeout
            else answered bits.bytes,
        record m { world = world' },
      )

  unfoldable pub read_mmu_regs : ℕ → ℕ → Machine D → Option (MmuStatus × Machine D)
  read_mmu_regs paddr be m =
      let pos_addr = paddr - base_mmu_addr in
      if leb (mmu_controller_regs * 4) pos_addr
      then some (refused ram_err_bus_error, m)
      else bytes4_at m.regs pos_addr >>= λ v. some (answered (copy_byte_4_array_with_be v be), m)

  unfoldable pub read_bios :
      List ℕ → SpecialRegisters → ℕ → Machine D → Option (MmuStatus × Machine D)
  read_bios file spe paddr m =
      if not (is_in_kern_mode spe.bcr)
      then some (refused ram_err_bus_error, m)
      else bytes4_at file (u16 (paddr - base_bios_addr)) >>= λ v. some (answered v, m)

  -- The four regions of the physical addresses
  unfoldable pub read_region :
      Bus (World D) → List ℕ → SpecialRegisters → ℕ → ℕ → Machine D → Option (MmuStatus × Machine D)
  read_region bus file spe paddr be m =
      if ltb paddr base_mmio_addr
      then read_memory paddr be m
      else if ltb paddr base_mmu_addr
      then some (read_mmio bus paddr be m)
      else if ltb paddr base_bios_addr
      then read_mmu_regs paddr be m
      else read_bios file spe paddr m

  unfoldable pub mmu_memory_rd_f :
      Bus (World D)
      → List ℕ
      → SpecialRegisters
      → ℕ
      → ℕ
      → ℕ
      → Machine D
      → Option (MmuStatus × Machine D)
  mmu_memory_rd_f bus file spe addr be fetch m =
      let (paddr, ram') = paddr_get spe m.ram addr fetch in
      let m' : Machine D = record m { ram = ram' } in
      if paddr.stat != 0
      then some (refused paddr.stat, m')
      else if is_set (paddr.addr &&& be_align be)
      then some (refused ram_err_align, m')
      else read_region bus file spe (paddr.addr) be m'
