-- ===== src/MmuController/Reread.antt =====
-- A word that `mmu_memory_wr_f` of src/controllers/mmu_controller.c writes to main memory, and what
-- `mmu_memory_rd_f` then reads at the same address.
use wolf_cpuemulator.Common.{
  ℕ, ◌+◌, ◌-◌, ◌*◌, ◌/◌, ◌%◌, ◌^◌, ◌<◌, ◌≤◌, ◌≡◌, refl, ap, ◌∙◌, arith, true, false, ◌&&◌, ltb,
  is_set, if◌then◌else◌, some, List, get_or, u8, ◌&&&◌, Bool-cases, inl, inr,
}
use wolf_cpuemulator.Common.Bits.{bit_and_mask}
use wolf_cpuemulator.Logic.{through8}
use wolf_cpuemulator.Logic.Select.{through8_if}
use wolf_cpuemulator.Endian.{Bytes4, copy_byte_4_array_with_be, be_data}
use wolf_cpuemulator.Ram.{Ram, write_4_bytes}
use wolf_cpuemulator.Ram.Cells.{byte_at}
use wolf_cpuemulator.MemController.{rd_memory}
use wolf_cpuemulator.MemController.Line.{rd_memory_lem}
use wolf_cpuemulator.MemController.RoundTrip.{wr_mem-in_range}
use wolf_cpuemulator.Ram.Operate.{byte_at-write_4_bytes}
use wolf_cpuemulator.Cache.{
  CacheGroup, CacheRdGroupRes, rd_cache_l1_groups, ld_cache_l1, ld_cache_l2, l1_cgroup,
}
use wolf_cpuemulator.Cache.Load.{empty_group, rd_cache_l1_groups-ld_cache_l1}
use wolf_cpuemulator.Bus.{World}
use wolf_cpuemulator.Cpu.State.{SpecialRegisters, is_pgo_on}
use wolf_cpuemulator.Cpu.Port.{Bus}
use wolf_cpuemulator.MmuController.{paddr_get}
use wolf_cpuemulator.MmuController.Access.{
  Machine, mmu_memory_rd_f, read_region, read_memory, offset4, answered, be_align,
}
use wolf_cpuemulator.MmuController.Store.{
  mmu_memory_wr_f, write_region, write_memory, reload, l1_part, done,
}

-- With paging off an address is its own translation.
paddr_get-off :
    (spe : SpecialRegisters) (ram : Ram) (a code : ℕ)
    → is_pgo_on spe.bcr ≡ false
    → paddr_get spe ram a code ≡ (record { addr = a; stat = 0 }, ram)
unfolding paddr_get
paddr_get-off spe ram a code off = rw off

-- Whole words must be aligned to 4.
aligned : (a : ℕ) → a % 4 ≡ 0 → is_set (a &&& be_align 15) ≡ false
unfolding be_data through8
aligned a h = ground (arith, bit_and_mask 2 a)

whole_word : be_data 15 ≤ 4
unfolding be_data through8
whole_word = omega arith

-- The copy that both caches get of a line is 32 bytes long; the first level gets it from here on.
l1_part_lem : (a : ℕ) → l1_part a ≡ (a % 128 - a % 32) / 4
l1_part_lem a = omega (arith, bit_and_mask 7 a, bit_and_mask 5 a)

rela_addr_eq :
    (groups : ℕ → CacheGroup) (a : ℕ) → (rd_cache_l1_groups groups a).0.rela_addr ≡ a % 32
unfolding rd_cache_l1_groups
rela_addr_eq groups a = bit_and_mask 5 a

module _ {D : Type 0} (m : Machine D) (a : ℕ) (v : Bytes4) where
  abbrev stored : Ram
  stored = write_4_bytes m.ram a v 0

  abbrev read : Ram
  read = (rd_memory stored a).1

  abbrev line : ℕ → ℕ
  line i = get_or (rd_memory stored a).0.bytes i 0

  abbrev loaded : Machine D
  loaded = record m {
    ram = read;
    cache2 = ld_cache_l2 m.cache2 a line;
    cache1 = ld_cache_l1 m.cache1 a (λ i. line (l1_part a + i));
  }

  write_memory-in_range :
      a + 4 < 2 ^ 31 → write_memory a a (record { bytes = v; be = 15 }) m ≡ some (done, loaded)
  unfolding write_memory reload
  write_memory-in_range h =
      let (written, wrote, ok) = wr_mem-in_range m.ram a 15 v h whole_word in
      rw wrote (rw (ok, (rd_memory_lem stored a (omega arith)).0) refl)

  module _ (bus : Bus (World D)) (file : List ℕ) (spe : SpecialRegisters) where
    write-in_range :
        is_pgo_on spe.bcr ≡ false
        → a % 4 ≡ 0
        → a + 4 < 2 ^ 31
        → mmu_memory_wr_f bus spe a (record { bytes = v; be = 15 }) m ≡ some (done, loaded)
    unfolding mmu_memory_wr_f write_region
    write-in_range off al h =
        let low : ltb a 0xffff0000 ≡ true = ground arith in
        rw (paddr_get-off spe m.ram a 0 off, aligned a al, low, write_memory-in_range h)

  abbrev hit1 : CacheRdGroupRes
  hit1 = (rd_cache_l1_groups loaded.cache1 a).0

  -- The first level holds the word now.
  hit1_lem :
      m.cache1 (l1_cgroup a) ≡ empty_group
      → (is_set hit1.hit ≡ true)
        × ((i : ℕ) → i < 16 → hit1.offset i ≡ line (l1_part a + i) % 2 ^ 8)
        × ((i : ℕ) → 16 ≤ i → hit1.offset i ≡ 0)
        × (hit1.rela_addr ≡ a % 32)
  hit1_lem fresh =
      let part = λ (i : ℕ). line (l1_part a + i) in
      let found = λ (i : ℕ). rd_cache_l1_groups-ld_cache_l1 m.cache1 a a i part fresh refl in
      (
        ground (arith, (found 0).0),
        λ i h. ground (arith, (found i).1),
        λ i h. ground (arith, (found i).1),
        rela_addr_eq (loaded.cache1) a,
      )

  -- Where in its line of memory the first level looks for the word
  abbrev moved : ℕ
  moved = (a % 128 - a % 32) / 4 + a % 32

  -- The byte number `k` that a read gives: one of memory behind the write, or nothing
  unfoldable pub reread : ℕ → ℕ
  reread k =
      if ltb (a % 32) 16 && ltb (moved + k) 32
      then u8 (byte_at stored (a / 128 * 128 + (moved + k)))
      else 0

  hit_byte :
      (k : ℕ)
      → m.cache1 (l1_cgroup a) ≡ empty_group
      → a % 4 ≡ 0
      → a + 4 < 2 ^ 31
      → k < 4
      → hit1.offset (a % 32 + k) % 2 ^ 8 ≡ reread k
  unfolding reread
  hit_byte k fresh al h lt =
      let place : l1_part a + (a % 32 + k) ≡ moved + k = omega (arith, l1_part_lem a) in
      elim (Bool-cases (ltb (a % 32) 16)) [
        | inl e ↦
            rw
              (
                (hit1_lem fresh).1 (a % 32 + k) (ground arith),
                (rd_memory_lem stored a (omega arith)).1 (l1_part a + (a % 32 + k)),
                place,
                e,
              )
              (ground arith)
        | inr e ↦ rw ((hit1_lem fresh).2 (a % 32 + k) (ground arith), e)
      ]

  reread_bytes : Bytes4
  reread_bytes = record { b0 = reread 0; b1 = reread 1; b2 = reread 2; b3 = reread 3 }

  all_bytes :
      (w : Bytes4)
      → copy_byte_4_array_with_be w 15
        ≡ record { b0 = u8 w.b0; b1 = u8 w.b1; b2 = u8 w.b2; b3 = u8 w.b3 }
  unfolding copy_byte_4_array_with_be
  all_bytes w =
      rw
        (through8_if true w.b0, through8_if true w.b1, through8_if true w.b2, through8_if true w.b3)

  read_memory-hit :
      m.cache1 (l1_cgroup a) ≡ empty_group
      → a % 4 ≡ 0
      → a + 4 < 2 ^ 31
      → read_memory a 15 loaded
        ≡ some (
          answered reread_bytes,
          record loaded { cache1 = (rd_cache_l1_groups loaded.cache1 a).1 },
        )
  unfolding read_memory offset4 reread_bytes
  read_memory-hit fresh al h =
      let (hit, _, _, rela) = hit1_lem fresh in
      let inside : ltb (a % 32 + 3) 32 ≡ true = ground arith in
      let e : a % 32 + 0 ≡ a % 32 = omega arith in
      rw (hit, rela, inside)
        (rw (
          all_bytes (record {
            b0 = hit1.offset (a % 32);
            b1 = hit1.offset (a % 32 + 1);
            b2 = hit1.offset (a % 32 + 2);
            b3 = hit1.offset (a % 32 + 3);
          }),
          rw e at (hit_byte 0 fresh al h (omega arith)),
          hit_byte 1 fresh al h (omega arith),
          hit_byte 2 fresh al h (omega arith),
          hit_byte 3 fresh al h (omega arith),
        ))

  byte_unmoved :
      (k : ℕ)
      → a % 128 < 16
      → a + 4 < 2 ^ 31
      → a % 4 ≡ 0
      → k < 4
      → reread k ≡ u8 (byte_at stored (a + k))
  unfolding reread
  byte_unmoved k near h al lt =
      let place : a / 128 * 128 + (moved + k) ≡ a + k = omega arith in rw place (ground arith)

  stored_bytes :
      a + 4 < 2 ^ 31
      → (byte_at stored (a + 0) ≡ v.b0)
        × (byte_at stored (a + 1) ≡ v.b1)
        × (byte_at stored (a + 2) ≡ v.b2)
        × (byte_at stored (a + 3) ≡ v.b3)
  stored_bytes h = (
    ground (arith, byte_at-write_4_bytes m.ram a (a + 0) 0 v (omega arith)),
    ground (arith, byte_at-write_4_bytes m.ram a (a + 1) 0 v (omega arith)),
    ground (arith, byte_at-write_4_bytes m.ram a (a + 2) 0 v (omega arith)),
    ground (arith, byte_at-write_4_bytes m.ram a (a + 3) 0 v (omega arith)),
  )

  written_back :
      a % 128 < 16
      → a + 4 < 2 ^ 31
      → a % 4 ≡ 0
      → reread_bytes ≡ record { b0 = u8 v.b0; b1 = u8 v.b1; b2 = u8 v.b2; b3 = u8 v.b3 }
  unfolding reread_bytes
  written_back near h al =
      let (e0, e1, e2, e3) = stored_bytes h in
      rw
        (
          byte_unmoved 0 near h al (omega arith),
          byte_unmoved 1 near h al (omega arith),
          byte_unmoved 2 near h al (omega arith),
          byte_unmoved 3 near h al (omega arith),
        )
        (rw (e0, e1, e2, e3))

  module _ (bus : Bus (World D)) (file : List ℕ) (spe : SpecialRegisters) (fetch : ℕ) where
    -- A whole word is written to main memory by the MMU and read again at once, with paging off, at
    -- an aligned address below 2 ^ 31 - 4 whose group of the first-level cache is empty. Both
    -- accesses succeed. The bytes that are read are not taken from the address itself, but from the
    -- place in its line of 128 bytes that a quarter of the line's offset in units of 32 gives, plus
    -- the offset in 32; and they are 0 where the offset in 32 is 16 or more, or where that place is
    -- past the first 32 bytes of the line.
    pub mmu_memory_rd_f-mmu_memory_wr_f :
        is_pgo_on spe.bcr ≡ false
        → a % 4 ≡ 0
        → a + 4 < 2 ^ 31
        → m.cache1 (l1_cgroup a) ≡ empty_group
        → (m' m'' : Machine D) × (mmu_memory_wr_f bus spe a (record { bytes = v; be = 15 }) m
            ≡ some (done, m'))
          × (mmu_memory_rd_f bus file spe a 15 fetch m'
              ≡ some (
                answered (record { b0 = reread 0; b1 = reread 1; b2 = reread 2; b3 = reread 3 }),
                m'',
              ))
    unfolding mmu_memory_rd_f read_region reread_bytes
    mmu_memory_rd_f-mmu_memory_wr_f off al h fresh =
        let low : ltb a 0xffff0000 ≡ true = ground arith in
        (
          loaded,
          record loaded { cache1 = (rd_cache_l1_groups loaded.cache1 a).1 },
          write-in_range bus file spe off al h,
          rw (paddr_get-off spe read a fetch off, aligned a al, low) (read_memory-hit fresh al h),
        )

    -- In the first 16 bytes of a line of 128 bytes, such a word is read back as it was written, each
    -- byte cut to 8 bits.
    pub mmu_memory_rd_f-mmu_memory_wr_f_near :
        is_pgo_on spe.bcr ≡ false
        → a % 4 ≡ 0
        → a + 4 < 2 ^ 31
        → a % 128 < 16
        → m.cache1 (l1_cgroup a) ≡ empty_group
        → (m' m'' : Machine D) × (mmu_memory_wr_f bus spe a (record { bytes = v; be = 15 }) m
            ≡ some (done, m'))
          × (mmu_memory_rd_f bus file spe a 15 fetch m'
              ≡ some (
                answered (record { b0 = u8 v.b0; b1 = u8 v.b1; b2 = u8 v.b2; b3 = u8 v.b3 }),
                m'',
              ))
    unfolding reread_bytes
    mmu_memory_rd_f-mmu_memory_wr_f_near off al h near fresh =
        let (m', m'', written, reads) = mmu_memory_rd_f-mmu_memory_wr_f off al h fresh in
        (m', m'', written, reads ∙ ap (λ w. some (answered w, m'')) (written_back near h al))
