-- ===== src/MmuController/Fault.antt =====
-- What `mmu_memory_wr_f` of src/controllers/mmu_controller.c does with an address that the page walk
-- refuses.
use wolf_cpuemulator.Common.{
  ℕ, ◌+◌, ◌-◌, ◌≡◌, ◌≤◌, refl, ◌∙◌, arith, if_holds, true, is_set, not, if◌then◌else◌, some, u16,
  u32, ◌>>◌, ◌<<◌, ◌&&&◌, ◌|||◌, ◌^◌,
}
use wolf_cpuemulator.Common.Bits.{zero-bit_and}
use wolf_cpuemulator.Logic.{through8}
use wolf_cpuemulator.Endian.{be_data}
use wolf_cpuemulator.Ram.{Ram, write_4_bytes}
use wolf_cpuemulator.Ram.Cells.{byte_at, same_cell}
use wolf_cpuemulator.MemController.{rd_memory_4b}
use wolf_cpuemulator.MemController.Line.{rd_memory_lem, byte_at-rd_memory, byte_at-rd_memory_4b}
use wolf_cpuemulator.MemController.RoundTrip.{wr_mem-in_range}
use wolf_cpuemulator.Ram.Operate.{byte_at-write_4_bytes}
use wolf_cpuemulator.Bus.{World}
use wolf_cpuemulator.Cpu.State.{SpecialRegisters, is_pgo_on}
use wolf_cpuemulator.Cpu.Port.{Bus, MmuData}
use wolf_cpuemulator.MmuController.{
  PaddrGet, paddr_get, walk, walk_table, check_status, first_word, ram_err_dmem_error,
  pde_get_prepared, pde_get_offset, failed,
}
use wolf_cpuemulator.MmuController.Access.{Machine, be_align}
use wolf_cpuemulator.MmuController.Store.{mmu_memory_wr_f, write_region, write_memory, reload, done}

-- A walk that fails leaves the address 0.
abbrev IsCleared : PaddrGet → Type 0
IsCleared r = is_set r.stat ≡ true → r.addr ≡ 0

-- What a walk leaves of memory, and of the address if it fails
abbrev Walked : Ram → PaddrGet × Ram → Type 0
Walked ram r = IsCleared r.0 × ((b : ℕ) → byte_at r.1 b ≡ byte_at ram b)

failed-IsCleared : (stat : ℕ) → IsCleared (failed stat)
failed-IsCleared stat h = refl

found-IsCleared : (addr : ℕ) → IsCleared (record { addr = addr; stat = 0 })
found-IsCleared addr h = absurd (cc)

module _ (spe : SpecialRegisters) where
  walk_table-Walked : (ram : Ram) (table v code : ℕ) → Walked ram (walk_table spe ram table v code)
  unfolding walk_table
  walk_table-Walked ram table v code =
      let pte = u16 (v >> 12 &&& 2 ^ 22 - 1) in
      let stat = (rd_memory_4b ram (table ||| pte << 2) 15).0 in
      let error = through8 stat.dmem_error ram_err_dmem_error in
      let entry = first_word stat.bytes in
      let checked = check_status spe entry code in
      let addr = u32 (pde_get_offset entry << 12) ||| u16 (v &&& 2 ^ 12 - 1) in
      let there : PaddrGet = record { addr = addr; stat = 0 } in
      let allowed = if is_set checked then failed checked else there in
      (
        if_holds IsCleared (is_set error) (failed error) allowed (failed-IsCleared error) (
            if_holds IsCleared (is_set checked) (failed checked) there (failed-IsCleared checked)
              (found-IsCleared addr)),
        λ b. byte_at-rd_memory_4b ram (table ||| pte << 2) 15 b,
      )

  walk-Walked : (ram : Ram) (v code : ℕ) → Walked ram (walk spe ram v code)
  unfolding walk
  walk-Walked ram v code =
      let a = u32 (spe.pg_mode_base_addr_reg + (u16 (v >> 22) << 2)) in
      let (stat, ram') = rd_memory_4b ram a 15 in
      let error = through8 stat.dmem_error ram_err_dmem_error in
      let directory = first_word stat.bytes in
      let absent = not (is_set (pde_get_prepared directory)) in
      let table = u32 (pde_get_offset directory << 12) in
      let rest = walk_table spe ram' table v code in
      let found = if absent then (failed 8, ram') else rest in
      let kept = λ (b : ℕ). byte_at-rd_memory_4b ram a 15 b in
      let (cleared, same) = walk_table-Walked ram' table v code in
      if_holds (Walked ram) (is_set error) (failed error, ram') found (failed-IsCleared error, kept)
        (if_holds (Walked ram) absent (failed 8, ram') rest (failed-IsCleared 8, kept)
          (cleared, λ b. same b ∙ kept b))

  -- With paging on or off, the translation of any address keeps what memory holds, and gives the
  -- address 0 with every status of failure.
  pub paddr_get-Walked : (ram : Ram) (v code : ℕ) → Walked ram (paddr_get spe ram v code)
  unfolding paddr_get
  paddr_get-Walked ram v code =
      if_holds (Walked ram) (is_pgo_on spe.bcr) (walk spe ram v code)
        (record { addr = v; stat = 0 }, ram) (walk-Walked ram v code) (found-IsCleared v, λ b. refl)

-- A store at address 0, in main memory, of any bytes with any byte enables
module _ {D : Type 0} (a : ℕ) (data' : MmuData) (m : Machine D) where
  abbrev stored0 : Ram
  stored0 = write_4_bytes m.ram 0 (data'.bytes) 0

  write_memory-zero :
      be_data data'.be ≤ 4
      → (m' : Machine D) × (write_memory a 0 data' m ≡ some (done, m'))
        × ((b : ℕ) → byte_at m'.ram b ≡ byte_at stored0 b)
  unfolding write_memory reload
  write_memory-zero small =
      let (written, wrote, ok) =
        wr_mem-in_range m.ram 0 (data'.be) (data'.bytes) (omega arith) small in
      let reads = (rd_memory_lem stored0 0 (omega arith)).0 in
      (
        (reload a 0 written stored0 m).1,
        rw wrote (rw (ok, reads) refl),
        λ b. rw (ok, reads) (byte_at-rd_memory stored0 0 b),
      )

-- A write to an address that the page walk refuses, with byte enables for which BE_DATA of
-- include/global.h is at most 4, reports success: its four bytes are stored in main memory at the
-- physical addresses 0 to 3, and no other cell is changed.
pub mmu_memory_wr_f-refused :
    {D : Type 0} (bus : Bus (World D)) (spe : SpecialRegisters) (a : ℕ) (data' : MmuData)
    (m : Machine D)
    → is_set (paddr_get spe m.ram a 0).0.stat ≡ true
    → be_data data'.be ≤ 4
    → (m' : Machine D) × (mmu_memory_wr_f bus spe a data' m ≡ some (done, m'))
      × ((b : ℕ)
          → byte_at m'.ram b ≡ (
              if same_cell 3 b
              then data'.bytes.b3
              else if same_cell 2 b
              then data'.bytes.b2
              else if same_cell 1 b
              then data'.bytes.b1
              else if same_cell 0 b
              then data'.bytes.b0
              else byte_at m.ram b))
unfolding mmu_memory_wr_f write_region
mmu_memory_wr_f-refused bus spe a data' m h small =
    let (cleared, same) = paddr_get-Walked spe m.ram a 0 in
    let m1 : Machine _ = record m { ram = (paddr_get spe m.ram a 0).1 } in
    let (m', wrote, stores) = write_memory-zero a data' m1 small in
    (
      m',
      rw (cleared h, zero-bit_and (be_align data'.be)) wrote,
      λ b.
          stores b ∙ (byte_at-write_4_bytes m1.ram 0 b 0 (data'.bytes) (omega arith) ∙ rw (same b)),
    )
