-- ===== src/Tests/Memory.antt =====
-- The theorems on main memory at concrete inputs.
use wolf_cpuemulator.Common.{
  ◌≤◌, ℕ, ◌≡◌, refl, arith, replicate, ◌∷◌, some, if◌then◌else◌, ◌==◌, ◌+◌,
}
use wolf_cpuemulator.Endian.{get_int_from_4_bytes_l, be_data}
use wolf_cpuemulator.Logic.{through8}
use wolf_cpuemulator.Ram.{Ram, get_data, init_ram_unit}
use wolf_cpuemulator.Ram.Cells.{byte_at, same_cell}
use wolf_cpuemulator.MemController.{RamWrStatus, rd_memory_4b, wr_mem}
use wolf_cpuemulator.MemController.RoundTrip.{rd_memory_4b-wr_mem, byte_at-wr_mem}
use wolf_cpuemulator.Cache.{
  rd_cache_l1_groups, ld_cache_l1, rd_cache_l2_groups, ld_cache_l2, init_group,
}
use wolf_cpuemulator.Cache.Load.{rd_cache_l1_groups-ld_cache_l1, rd_cache_l2_groups-ld_cache_l2}
use wolf_cpuemulator.Cpu.State.{SpecialRegisters}
use wolf_cpuemulator.MmuController.{paddr_get}
use wolf_cpuemulator.MmuController.Walk.{paddr_get_lem, word_at}
use wolf_cpuemulator.Cache.Reread.{IsMarked, rd_cache_l1_groups-rd_cache_l1_groups}
use wolf_cpuemulator.Tests.Data.{four_bytes}

one_byte : be_data 1 ≤ 4
unfolding be_data through8
one_byte = omega arith

rd_memory_4b-wr_mem_example :
    (written : RamWrStatus) × (ram' : Ram) × (wr_mem init_ram_unit 0x1000 four_bytes 1
      ≡ some (written, ram'))
    × (written.dmem_error ≡ 0)
    × ((rd_memory_4b ram' 0x1000 15).0.dmem_error ≡ 0)
    × ((rd_memory_4b ram' 0x1000 15).0.bytes ≡ 0x11 ∷ 0x22 ∷ 0x33 ∷ 0x44 ∷ replicate 124 0)
rd_memory_4b-wr_mem_example =
    rd_memory_4b-wr_mem init_ram_unit 0x1000 1 four_bytes (omega arith) one_byte

byte_at-wr_mem_example :
    (written : RamWrStatus) × (ram' : Ram) × (wr_mem init_ram_unit 0x1000 four_bytes 1
      ≡ some (written, ram'))
    × ((b : ℕ)
        → byte_at ram' b ≡ (
            if same_cell 0x1003 b
            then 0x44
            else if same_cell 0x1002 b
            then 0x33
            else if same_cell 0x1001 b
            then 0x22
            else if same_cell 0x1000 b
            then 0x11
            else byte_at init_ram_unit b))
byte_at-wr_mem_example = byte_at-wr_mem init_ram_unit 0x1000 1 four_bytes (omega arith) one_byte

-- Address 0x20 after a load of address 0x4020: the tag 0 hits in the second line.
rd_cache_l1_groups-ld_cache_l1_example :
    let stat = (rd_cache_l1_groups (ld_cache_l1 init_group 0x4020 (λ i. i + 7)) 0x20).0 in
    (stat.hit ≡ 1) × (stat.offset 3 ≡ 10)
unfolding init_group
rd_cache_l1_groups-ld_cache_l1_example =
    rd_cache_l1_groups-ld_cache_l1 init_group 0x4020 0x20 3 (λ i. i + 7) refl refl

rd_cache_l2_groups-ld_cache_l2_example :
    let stat = (rd_cache_l2_groups (ld_cache_l2 init_group 0x20080 (λ i. i + 7)) 0x20080).0 in
    (stat.hit ≡ 1) × (stat.offset 100 ≡ 107)
unfolding init_group
rd_cache_l2_groups-ld_cache_l2_example =
    rd_cache_l2_groups-ld_cache_l2 init_group 0x20080 0x20080 100 (λ i. i + 7) refl refl

-- A directory at 0x1000 with the entry 0x2800, and a table at 0x2000 with the entry 0x5d00.
abbrev two_tables : Ram
two_tables = record {
  page = λ p q. some (λ i. if i == 0x1001 then 0x28 else if i == 0x200d then 0x5d else 0);
}

abbrev paging : SpecialRegisters
paging = record { bcr = 0b101; scr = 0; flags = 0; pg_mode_base_addr_reg = 0x1000 }

paddr_get_lem_example :
    ((paddr_get paging two_tables 0x3004 1).0 ≡ record { addr = 0x5004; stat = 0 })
    × ((b : ℕ) → byte_at (paddr_get paging two_tables 0x3004 1).1 b ≡ byte_at two_tables b)
unfolding word_at get_int_from_4_bytes_l byte_at get_data
paddr_get_lem_example =
    paddr_get_lem paging two_tables 0x3004 1 (omega arith) refl (omega arith) (omega arith)

init_group-IsMarked : (i : ℕ) → IsMarked (init_group i)
unfolding init_group
init_group-IsMarked i = record { first_marked = refl; second_marked = refl }

rd_cache_l1_groups-rd_cache_l1_groups_example :
    (rd_cache_l1_groups (rd_cache_l1_groups init_group 0x4020).1 0x20).0
    ≡ (rd_cache_l1_groups init_group 0x20).0
rd_cache_l1_groups-rd_cache_l1_groups_example =
    rd_cache_l1_groups-rd_cache_l1_groups init_group 0x4020 0x20 (init_group-IsMarked 1)
