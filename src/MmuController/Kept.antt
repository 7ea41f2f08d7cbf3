-- ===== src/MmuController/Kept.antt =====
-- What every access of src/controllers/mmu_controller.c keeps: the marks of both caches, the number of
-- the MMU's registers, and for a read the contents of main memory.
use wolf_cpuemulator.Common.{
  ℕ, ◌+◌, ◌-◌, ◌≡◌, ◌∙◌, refl, arith, some, none, Option, List, if_holds, is_set, ◌!=◌, not, ltb,
  leb, if◌then◌else◌, get_or, wrap, u16, ◌>>◌, ◌<<◌, ◌&&&◌,
}
use wolf_cpuemulator.Common.Partial.{◌>>=◌}
use wolf_cpuemulator.Logic.{through32}
use wolf_cpuemulator.Endian.{Bytes4, bytes4_at, set_bytes4, copy_byte_4_array_with_be}
use wolf_cpuemulator.Ram.{Ram}
use wolf_cpuemulator.Ram.Cells.{byte_at}
use wolf_cpuemulator.MemController.{RamWrStatus, rd_memory, wr_mem}
use wolf_cpuemulator.MemController.Line.{byte_at-rd_memory}
use wolf_cpuemulator.Cache.{rd_cache_l1_groups, rd_cache_l2_groups, ld_cache_l1, ld_cache_l2}
use wolf_cpuemulator.Cache.Reread.{IsMarked}
use wolf_cpuemulator.Cache.Marks.{caches-IsMarked}
use wolf_cpuemulator.Bus.{World, BusController}
use wolf_cpuemulator.Cpu.State.{SpecialRegisters, is_in_kern_mode}
use wolf_cpuemulator.Cpu.Fetch.{MmuStatus}
use wolf_cpuemulator.Cpu.Port.{Bus, MmuData}
use wolf_cpuemulator.MmuController.{paddr_get, ram_err_ok, ram_err_dmem_error}
use wolf_cpuemulator.MmuController.Access.{
  Machine, mmu_memory_rd_f, read_region, read_memory, read_second, read_line, read_mmio,
  read_mmu_regs, read_bios, offset4, answered, refused, be_align,
}
use wolf_cpuemulator.MmuController.Store.{
  mmu_memory_wr_f, write_region, write_memory, reload, write_mmio, write_mmu_regs, run_mmu_regs,
  l1_part, done,
}
use wolf_cpuemulator.MmuController.Fault.{paddr_get-Walked}

-- The lines of both caches are empty, valid, or valid and latest used.
pub record IsSound {D : Type 0} (m : Machine D) : Type 0 where
  pub marks1 : (i : ℕ) → IsMarked (m.cache1 i)
  pub marks2 : (i : ℕ) → IsMarked (m.cache2 i)

-- A read leaves the caches sound, and every byte of memory as it was.
pub record Keeps {D : Type 0} (m m' : Machine D) : Type 0 where
  pub sound : IsSound m'
  pub same : (b : ℕ) → byte_at m'.ram b ≡ byte_at m.ram b

-- The same of an access that may run into what C leaves undefined
abbrev pub Leaves : {D : Type 0} → Machine D → Option (MmuStatus × Machine D) → Type 0
Leaves m none = Unit
Leaves m (some r) = Keeps m r.1

module _ {D : Type 0} (m : Machine D) where
  bind-Leaves :
      {A : Type 0} (o : Option A) (f : A → Option (MmuStatus × Machine D))
      → ((x : A) → Leaves m (f x))
      → Leaves m (o >>= f)
  bind-Leaves none f h = tt
  bind-Leaves (some x) f h = h x

  Leaves-trans :
      (m1 : Machine D) (o : Option (MmuStatus × Machine D)) → Keeps m m1 → Leaves m1 o → Leaves m o
  Leaves-trans m1 none k l = tt
  Leaves-trans m1 (some r) k l = record { sound = l.sound; same = λ b. l.same b ∙ k.same b }

  untouched : IsSound m → Keeps m m
  untouched w = record { sound = w; same = λ b. refl }

module _ {D : Type 0} where
  read_line-Leaves :
      (paddr be rela : ℕ) (m : Machine D) → IsSound m → Leaves m (read_line paddr be rela m)
  unfolding read_line
  read_line-Leaves paddr be rela m w =
      let (stat, ram') = rd_memory m.ram paddr in
      let m' : Machine D = record m { ram = ram' } in
      let error = wrap 4 (through32 stat.dmem_error ram_err_dmem_error) in
      let line = λ (i : ℕ). get_or stat.bytes i 0 in
      let loaded : Machine D = record m' { cache2 = ld_cache_l2 m'.cache2 paddr line } in
      let same = λ (b : ℕ). byte_at-rd_memory m.ram paddr b in
      let rest = λ (v : Bytes4). some (answered (copy_byte_4_array_with_be v be), loaded) in
      if_holds (Leaves m) (error != ram_err_ok) (some (refused error, m'))
        (bytes4_at stat.bytes rela >>= rest)
        (record { sound = record { marks1 = w.marks1; marks2 = w.marks2 }; same = same })
        (bind-Leaves m (bytes4_at stat.bytes rela) rest (λ v. record {
          sound = record {
            marks1 = w.marks1;
            marks2 = λ i. (caches-IsMarked m.cache2 paddr line w.marks2 i).4;
          };
          same = same;
        }))

  read_second-Leaves :
      (paddr be : ℕ) (m : Machine D) → IsSound m → Leaves m (read_second paddr be m)
  unfolding read_second
  read_second-Leaves paddr be m w =
      let (resl2, cache2') = rd_cache_l2_groups m.cache2 paddr in
      let m' : Machine D = record m { cache2 = cache2' } in
      let from = resl2.rela_addr >> 2 << 2 in
      let part = λ (i : ℕ). resl2.offset (from + i) in
      let loaded : Machine D = record m' { cache1 = ld_cache_l1 m'.cache1 paddr part } in
      let w' : IsSound m' = record {
        marks1 = w.marks1;
        marks2 = λ i. (caches-IsMarked m.cache2 paddr part w.marks2 i).2;
      } in
      let ok = λ (v : Bytes4). some (answered (copy_byte_4_array_with_be v be), loaded) in
      let found = λ (v : Bytes4). if ltb 128 (from + 16) then none else ok v in
      let o = offset4 128 resl2.offset resl2.rela_addr in
      if_holds (Leaves m) (is_set resl2.hit) (o >>= found) (read_line paddr be (resl2.rela_addr) m')
        (bind-Leaves m o found (λ v.
          if_holds (Leaves m) (ltb 128 (from + 16)) none (ok v) tt (record {
            sound = record {
              marks1 = λ i. (caches-IsMarked m.cache1 paddr part w.marks1 i).3;
              marks2 = w'.marks2;
            };
            same = λ b. refl;
          })))
        (Leaves-trans m m' (read_line paddr be (resl2.rela_addr) m')
          (record { sound = w'; same = λ b. refl })
          (read_line-Leaves paddr be (resl2.rela_addr) m' w'))

  read_memory-Leaves :
      (paddr be : ℕ) (m : Machine D) → IsSound m → Leaves m (read_memory paddr be m)
  unfolding read_memory
  read_memory-Leaves paddr be m w =
      let (resl1, cache1') = rd_cache_l1_groups m.cache1 paddr in
      let m' : Machine D = record m { cache1 = cache1' } in
      let w' : IsSound m' = record {
        marks1 = λ i. (caches-IsMarked m.cache1 paddr (λ _. 0) w.marks1 i).1;
        marks2 = w.marks2;
      } in
      let k : Keeps m m' = record { sound = w'; same = λ b. refl } in
      let ok = λ (v : Bytes4). some (answered (copy_byte_4_array_with_be v be), m') in
      let o = offset4 32 resl1.offset resl1.rela_addr in
      if_holds (Leaves m) (is_set resl1.hit) (o >>= ok) (read_second paddr be m')
        (bind-Leaves m o ok (λ v. k))
        (Leaves-trans m m' (read_second paddr be m') k (read_second-Leaves paddr be m' w'))

  module _ (bus : Bus (World D)) where
    read_mmio-Keeps :
        (paddr be : ℕ) (m : Machine D) → IsSound m → Keeps m (read_mmio bus paddr be m).1
    unfolding read_mmio
    read_mmio-Keeps paddr be m w = record {
      sound = record { marks1 = w.marks1; marks2 = w.marks2 };
      same = λ b. refl;
    }

    read_mmu_regs-Leaves :
        (paddr be : ℕ) (m : Machine D) → IsSound m → Leaves m (read_mmu_regs paddr be m)
    unfolding read_mmu_regs
    read_mmu_regs-Leaves paddr be m w =
        let pos = paddr - 0xfffffd00 in
        let ok = λ (v : Bytes4). some (answered (copy_byte_4_array_with_be v be), m) in
        if_holds (Leaves m) (leb 48 pos) (some (refused 3, m)) (bytes4_at m.regs pos >>= ok)
          (untouched m w) (bind-Leaves m (bytes4_at m.regs pos) ok (λ v. untouched m w))

    read_bios-Leaves :
        (file : List ℕ) (spe : SpecialRegisters) (paddr : ℕ) (m : Machine D)
        → IsSound m
        → Leaves m (read_bios file spe paddr m)
    unfolding read_bios
    read_bios-Leaves file spe paddr m w =
        let o = bytes4_at file (u16 (paddr - 0xfffffe00)) in
        let ok = λ (v : Bytes4). some (answered v, m) in
        if_holds (Leaves m) (not (is_in_kern_mode spe.bcr)) (some (refused 3, m)) (o >>= ok)
          (untouched m w) (bind-Leaves m o ok (λ v. untouched m w))

    read_region-Leaves :
        (file : List ℕ) (spe : SpecialRegisters) (paddr be : ℕ) (m : Machine D)
        → IsSound m
        → Leaves m (read_region bus file spe paddr be m)
    unfolding read_region
    read_region-Leaves file spe paddr be m w = ground (
      arith,
      read_memory-Leaves paddr be m w,
      read_mmio-Keeps paddr be m w,
      read_mmu_regs-Leaves paddr be m w,
      read_bios-Leaves file spe paddr m w,
    )

    -- Whatever is read, wherever, and whatever comes of it, `mmu_memory_rd_f` changes no byte of main
    -- memory and keeps the marks of both caches in order, as long as C defines what it does.
    pub mmu_memory_rd_f-Leaves :
        (file : List ℕ) (spe : SpecialRegisters) (addr be fetch : ℕ) (m : Machine D)
        → IsSound m
        → Leaves m (mmu_memory_rd_f bus file spe addr be fetch m)
    unfolding mmu_memory_rd_f
    mmu_memory_rd_f-Leaves file spe addr be fetch m w =
        let (paddr, ram') = paddr_get spe m.ram addr fetch in
        let m' : Machine D = record m { ram = ram' } in
        let w' : IsSound m' = record { marks1 = w.marks1; marks2 = w.marks2 } in
        let k : Keeps m m' = record {
          sound = w';
          same = (paddr_get-Walked spe m.ram addr fetch).1;
        } in
        let misaligned = is_set (paddr.addr &&& be_align be) in
        let rest = read_region bus file spe (paddr.addr) be m' in
        if_holds (Leaves m) (paddr.stat != 0) (some (refused paddr.stat, m'))
          (if misaligned then some (refused 2, m') else rest) k
          (if_holds (Leaves m) misaligned (some (refused 2, m')) rest k
            (Leaves-trans m m' rest k (read_region-Leaves file spe (paddr.addr) be m' w')))

-- What holds of the machine behind an access, where there is one
abbrev Sound : {D : Type 0} → Option (MmuStatus × Machine D) → Type 0
Sound none = Unit
Sound (some r) = IsSound r.1

Sound-bind :
    {D A : Type 0} (o : Option A) (f : A → Option (MmuStatus × Machine D))
    → ((x : A) → Sound (f x))
    → Sound (o >>= f)
Sound-bind none f h = tt
Sound-bind (some x) f h = h x

module _ {D : Type 0} (bus : Bus (World D)) where
  reload-IsSound :
      (a paddr : ℕ) (stat : RamWrStatus) (ram1 : Ram) (m : Machine D)
      → IsSound m
      → IsSound (reload a paddr stat ram1 m).1
  unfolding reload
  reload-IsSound a paddr stat ram1 m w =
      let m1 : Machine D = record m { ram = ram1 } in
      let (stat2, ram2) = rd_memory ram1 paddr in
      let m2 : Machine D = record m { ram = ram2 } in
      let line = λ (i : ℕ). get_or stat2.bytes i 0 in
      let part = λ (i : ℕ). line (l1_part a + i) in
      let m3 : Machine D = record m2 {
        cache2 = ld_cache_l2 m.cache2 paddr line;
        cache1 = ld_cache_l1 m.cache1 paddr part;
      } in
      let failed1 = is_set stat.dmem_error in
      let failed2 = is_set stat2.dmem_error in
      let P = λ (r : MmuStatus × Machine D). IsSound (r.1) in
      if_holds P failed1 (refused 1, m1) (if failed2 then (refused 1, m2) else (done, m3))
        (record { marks1 = w.marks1; marks2 = w.marks2 })
        (if_holds P failed2 (refused 1, m2) (done, m3)
          (record { marks1 = w.marks1; marks2 = w.marks2 })
          (record {
            marks1 = λ i. (caches-IsMarked m.cache1 paddr part w.marks1 i).3;
            marks2 = λ i. (caches-IsMarked m.cache2 paddr line w.marks2 i).4;
          }))

  write_memory-Sound :
      (a paddr : ℕ) (data' : MmuData) (m : Machine D)
      → IsSound m
      → Sound (write_memory a paddr data' m)
  unfolding write_memory
  write_memory-Sound a paddr data' m w =
      Sound-bind (wr_mem m.ram paddr (data'.bytes) (data'.be))
        (λ r. some (reload a paddr r.0 r.1 m)) (λ r. reload-IsSound a paddr r.0 r.1 m w)

  write_mmio-IsSound :
      (paddr : ℕ) (data' : MmuData) (m : Machine D)
      → IsSound m
      → IsSound (write_mmio bus paddr data' m).1
  unfolding write_mmio
  write_mmio-IsSound paddr data' m w = record { marks1 = w.marks1; marks2 = w.marks2 }

  write_mmu_regs-Sound :
      (paddr : ℕ) (data' : MmuData) (m : Machine D)
      → IsSound m
      → Sound (write_mmu_regs paddr data' m)
  unfolding write_mmu_regs
  write_mmu_regs-Sound paddr data' m w =
      let pos = (paddr - 0xfffffd00) >> 2 in
      let new = set_bytes4 m.regs pos (copy_byte_4_array_with_be (data'.bytes) (data'.be)) in
      let rest = λ (r : List ℕ × BusController).
        some (done, record m { regs = r.0; world = (r.1, m.world.1) }) in
      let run = run_mmu_regs new (m.world.0) in
      if_holds Sound (leb 48 pos) (some (refused 3, m))
        (bytes4_at m.regs pos >>= (λ old. run >>= rest)) w
        (Sound-bind (bytes4_at m.regs pos) (λ old. run >>= rest)
          (λ old. Sound-bind run rest (λ r. record { marks1 = w.marks1; marks2 = w.marks2 })))

  -- A write, whatever it does to memory, keeps the marks of both caches in order.
  pub mmu_memory_wr_f-Sound :
      (spe : SpecialRegisters) (addr : ℕ) (data' : MmuData) (m : Machine D)
      → IsSound m
      → Sound (mmu_memory_wr_f bus spe addr data' m)
  unfolding mmu_memory_wr_f write_region
  mmu_memory_wr_f-Sound spe addr data' m w =
      let (paddr, ram') = paddr_get spe m.ram addr 0 in
      let m' : Machine D = record m { ram = ram' } in
      let w' : IsSound m' = record { marks1 = w.marks1; marks2 = w.marks2 } in
      ground (
        arith,
        w',
        write_memory-Sound addr (paddr.addr) data' m' w',
        write_mmio-IsSound (paddr.addr) data' m' w',
        write_mmu_regs-Sound (paddr.addr) data' m' w',
      )
