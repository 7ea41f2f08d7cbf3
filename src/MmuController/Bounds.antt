-- ===== src/MmuController/Bounds.antt =====
-- Where the reads of src/controllers/mmu_controller.c stay within the arrays that they index.
use wolf_cpuemulator.Common.{
  ℕ, zero, suc, ◌+◌, ◌-◌, ◌%◌, ◌<◌, ◌≤◌, ◌≡◌, ◌≢◌, refl, ap, ◌∙◌, arith, true, false, ◌⊎◌, ◌!=◌,
  not, if_holds, ltb, leb, is_set, if◌then◌else◌, Option, none, some, List, [], ◌∷◌, length,
  length-replicate, replicate, get_or, u16, wrap, ◌>>◌, ◌<<◌, ◌&&&◌, Bool-cases, inl, inr,
}
use wolf_cpuemulator.Common.Partial.{◌>>=◌, >>=-ne-none}
use wolf_cpuemulator.Common.Bits.{bit_and_mask}
use wolf_cpuemulator.Logic.{through8, through32}
use wolf_cpuemulator.Endian.{Bytes4, bytes4_at, copy_byte_4_array_with_be, be_data}
use wolf_cpuemulator.Device.Registers.{bytes4_at-some}
use wolf_cpuemulator.Ram.{Ram, operate, RamInArgs}
use wolf_cpuemulator.MemController.{rd_memory, memcpy, blank_args}
use wolf_cpuemulator.Cache.{
  CacheGroup, rd_cache_l1_groups, rd_cache_l2_groups, ld_cache_l1, ld_cache_l2,
}
use wolf_cpuemulator.Bus.{World}
use wolf_cpuemulator.Cpu.State.{SpecialRegisters, is_in_kern_mode}
use wolf_cpuemulator.Cpu.Fetch.{MmuStatus}
use wolf_cpuemulator.Cpu.Port.{Bus}
use wolf_cpuemulator.MmuController.{paddr_get, ram_err_ok, ram_err_dmem_error}
use wolf_cpuemulator.MmuController.Access.{
  Machine, mmu_memory_rd_f, read_region, read_memory, read_second, read_line, read_mmio,
  read_mmu_regs, read_bios, offset4, answered, refused, be_align,
}

length-memcpy : (n : ℕ) (src dst : List ℕ) → length (memcpy n src dst) ≡ length dst
length-memcpy zero src dst = refl
length-memcpy (suc n) [] dst = refl
length-memcpy (suc n) (x ∷ src) [] = refl
length-memcpy (suc n) (x ∷ src) (y ∷ dst) = ap suc (length-memcpy n src dst)

length-rd_memory : (ram : Ram) (a : ℕ) → length (rd_memory ram a).0.bytes ≡ 128
unfolding rd_memory
length-rd_memory ram a =
    let input : RamInArgs = record blank_args { opcode = 0; opbytes = 0; paddr = a } in
    let result = (operate ram input).0 in
    let zeros : List ℕ = replicate 128 0 in
    if_holds (λ (l : List ℕ). length l ≡ 128) (is_set (result.status_flag &&& 1)) zeros
      (memcpy 128 result.bytes zeros) (length-replicate {A = ℕ} 128 0)
      (length-memcpy 128 result.bytes zeros ∙ length-replicate {A = ℕ} 128 0)

offset4-some : (size : ℕ) (offset : ℕ → ℕ) (i : ℕ) → i + 3 < size → offset4 size offset i ≢ none
unfolding offset4
offset4-some size offset i h = let e : ltb (i + 3) size ≡ true = ground arith in rw e (λ p. cc)

bytes4_at-ne-none : (array : List ℕ) (i : ℕ) → i + 3 < length array → bytes4_at array i ≢ none
bytes4_at-ne-none array i h = rw ((bytes4_at-some array i h).1) (λ p. cc)

rela1_lem : (groups : ℕ → CacheGroup) (a : ℕ) → (rd_cache_l1_groups groups a).0.rela_addr ≡ a % 32
unfolding rd_cache_l1_groups
rela1_lem groups a = bit_and_mask 5 a

rela2_lem : (groups : ℕ → CacheGroup) (a : ℕ) → (rd_cache_l2_groups groups a).0.rela_addr ≡ a % 128
unfolding rd_cache_l2_groups
rela2_lem groups a = bit_and_mask 7 a

-- The access of an address is defined.
abbrev Defined : {D : Type 0} → Option (MmuStatus × Machine D) → Type 0
Defined o = o ≢ none

module _ {D : Type 0} where
  some-Defined : (r : MmuStatus × Machine D) → Defined (some r)
  some-Defined r e = cc

  read_line-Defined :
      (paddr be rela : ℕ) (m : Machine D) → rela + 3 < 128 → Defined (read_line paddr be rela m)
  unfolding read_line
  read_line-Defined paddr be rela m h =
      let (stat, ram') = rd_memory m.ram paddr in
      let m' : Machine D = record m { ram = ram' } in
      let error = wrap 4 (through32 stat.dmem_error ram_err_dmem_error) in
      let line = λ (i : ℕ). get_or stat.bytes i 0 in
      let reach : rela + 3 < length stat.bytes = omega (arith, length-rd_memory m.ram paddr) in
      let ok : Bytes4 → MmuStatus × Machine D = λ v. (
        answered (copy_byte_4_array_with_be v be),
        record m' { cache2 = ld_cache_l2 m'.cache2 paddr line },
      ) in
      if_holds Defined (error != ram_err_ok) (some (refused error, m'))
        (bytes4_at stat.bytes rela >>= λ v. some (ok v)) (some-Defined (refused error, m'))
        (>>=-ne-none (bytes4_at stat.bytes rela) (λ v. some (ok v))
          (bytes4_at-ne-none stat.bytes rela reach) (λ v e. some-Defined (ok v)))

  read_second-Defined :
      (paddr be : ℕ) (m : Machine D)
      → paddr % 4 ≡ 0
      → paddr % 128 ≤ 112
      → Defined (read_second paddr be m)
  unfolding read_second
  read_second-Defined paddr be m al h =
      let (resl2, cache2') = rd_cache_l2_groups m.cache2 paddr in
      let m' : Machine D = record m { cache2 = cache2' } in
      let from = resl2.rela_addr >> 2 << 2 in
      let eq : resl2.rela_addr ≡ paddr % 128 = rela2_lem m.cache2 paddr in
      let short : ltb 128 (from + 16) ≡ false = ground arith in
      let ok : Bytes4 → MmuStatus × Machine D = λ v. (
        answered (copy_byte_4_array_with_be v be),
        record m' { cache1 = ld_cache_l1 m'.cache1 paddr (λ i. resl2.offset (from + i)) },
      ) in
      let o = offset4 128 resl2.offset resl2.rela_addr in
      let rest : Bytes4 → Option (MmuStatus × Machine D) =
        λ v. if ltb 128 (from + 16) then none else some (ok v) in
      if_holds Defined (is_set resl2.hit) (o >>= rest) (read_line paddr be (resl2.rela_addr) m')
        (>>=-ne-none o rest (offset4-some 128 resl2.offset resl2.rela_addr (omega arith))
          (λ v e. rw short (some-Defined (ok v))))
        (read_line-Defined paddr be (resl2.rela_addr) m' (omega arith))

  read_memory-Defined :
      (paddr be : ℕ) (m : Machine D)
      → paddr % 4 ≡ 0
      → paddr % 128 ≤ 112
      → Defined (read_memory paddr be m)
  unfolding read_memory
  read_memory-Defined paddr be m al h =
      let (resl1, cache1') = rd_cache_l1_groups m.cache1 paddr in
      let m' : Machine D = record m { cache1 = cache1' } in
      let eq : resl1.rela_addr ≡ paddr % 32 = rela1_lem m.cache1 paddr in
      let ok : Bytes4 → MmuStatus × Machine D =
        λ v. (answered (copy_byte_4_array_with_be v be), m') in
      let o = offset4 32 resl1.offset resl1.rela_addr in
      if_holds Defined (is_set resl1.hit) (o >>= λ v. some (ok v)) (read_second paddr be m')
        (>>=-ne-none o (λ v. some (ok v))
          (offset4-some 32 resl1.offset resl1.rela_addr (omega arith)) (λ v e. some-Defined (ok v)))
        (read_second-Defined paddr be m' al h)

  read_mmu_regs-Defined :
      (paddr be : ℕ) (m : Machine D)
      → length m.regs ≡ 12
      → paddr % 4 ≡ 0
      → 0xfffffd00 ≤ paddr
      → (paddr < 0xfffffd0c) ⊎ (0xfffffd30 ≤ paddr)
      → Defined (read_mmu_regs paddr be m)
  unfolding read_mmu_regs
  read_mmu_regs-Defined paddr be m n al low (inl h) =
      let ok : Bytes4 → MmuStatus × Machine D =
        λ v. (answered (copy_byte_4_array_with_be v be), m) in
      let pos = paddr - 0xfffffd00 in
      let below : leb 48 pos ≡ false = ground arith in
      rw below (
        >>=-ne-none (bytes4_at m.regs pos) (λ v. some (ok v))
          (bytes4_at-ne-none m.regs pos (omega arith)) (λ v e. some-Defined (ok v)))
  read_mmu_regs-Defined paddr be m n al low (inr h) =
      let above : leb 48 (paddr - 0xfffffd00) ≡ true = ground arith in
      rw above (some-Defined (refused 3, m))

  read_bios-Defined :
      (file : List ℕ) (spe : SpecialRegisters) (paddr : ℕ) (m : Machine D)
      → u16 (paddr - 0xfffffe00) + 3 < length file
      → Defined (read_bios file spe paddr m)
  unfolding read_bios
  read_bios-Defined file spe paddr m h =
      let i = u16 (paddr - 0xfffffe00) in
      let ok : Bytes4 → MmuStatus × Machine D = λ v. (answered v, m) in
      if_holds Defined (not (is_in_kern_mode spe.bcr)) (some (refused 3, m))
        (bytes4_at file i >>= λ v. some (ok v)) (some-Defined (refused 3, m))
        (>>=-ne-none (bytes4_at file i) (λ v. some (ok v)) (bytes4_at-ne-none file i h)
          (λ v e. some-Defined (ok v)))

  module _ (bus : Bus (World D)) (file : List ℕ) (spe : SpecialRegisters) where
    -- What a word read at this physical address needs, in each region but that of the devices
    pub record InReach (p : ℕ) : Type 0 where
      pub in_memory : p < 0xffff0000 → p % 128 ≤ 112
      pub in_regs : 0xfffffd00 ≤ p → (p < 0xfffffd0c) ⊎ (0xfffffd30 ≤ p)
      pub in_bios : 0xfffffe00 ≤ p → u16 (p - 0xfffffe00) + 3 < length file

    read_region-Defined :
        (p be : ℕ) (m : Machine D)
        → length m.regs ≡ 12
        → p % 4 ≡ 0
        → InReach p
        → Defined (read_region bus file spe p be m)
    unfolding read_region
    read_region-Defined p be m n al r = elim (Bool-cases (ltb p 0xffff0000)) [
      | inl low ↦
          let h : p < 0xffff0000 = ground arith in
          rw low (read_memory-Defined p be m al (r.in_memory h))
      | inr high ↦ rw high (elim (Bool-cases (ltb p 0xfffffd00)) [
        | inl low ↦ rw low (some-Defined (read_mmio bus p be m))
        | inr high ↦
            let h : 0xfffffd00 ≤ p = ground arith in
            rw high (elim (Bool-cases (ltb p 0xfffffe00)) [
              | inl low ↦ rw low (read_mmu_regs-Defined p be m n al h (r.in_regs h))
              | inr high ↦
                  let k : 0xfffffe00 ≤ p = ground arith in
                  rw high (read_bios-Defined file spe p m (r.in_bios k))
            ])
      ])
    ]

    -- A word read of a machine with the source's 12 bytes of registers is always defined, so every index
    -- that it computes is within the array it is for, if the address that its translation yields, when
    -- there is one, is `InReach`: in main memory not in the last 12 bytes of a line of 128, in the
    -- region of the MMU among the first 12 bytes or past the first 48, and in the region of the BIOS
    -- within the file. It is so for every virtual address, aligned or not, and any state of the caches.
    pub mmu_memory_rd_f-ne-none :
        (addr fetch : ℕ) (m : Machine D)
        → length m.regs ≡ 12
        → ((paddr_get spe m.ram addr fetch).0.stat ≡ 0
            → InReach ((paddr_get spe m.ram addr fetch).0.addr))
        → mmu_memory_rd_f bus file spe addr 15 fetch m ≢ none
    unfolding mmu_memory_rd_f through8 be_data
    mmu_memory_rd_f-ne-none addr fetch m n r =
        let (paddr, ram') = paddr_get spe m.ram addr fetch in
        let m' : Machine D = record m { ram = ram' } in
        elim (Bool-cases (paddr.stat != 0)) [
          | inl bad ↦ rw bad (some-Defined (refused paddr.stat, m'))
          | inr good ↦ rw good (elim (Bool-cases (is_set (paddr.addr &&& be_align 15))) [
            | inl odd ↦ rw odd (some-Defined (refused 2, m'))
            | inr even ↦
                let al : paddr.addr % 4 ≡ 0 = ground (arith, bit_and_mask 2 paddr.addr) in
                let zero_stat : paddr.stat ≡ 0 = ground arith in
                rw even (read_region-Defined paddr.addr 15 m' n al (r zero_stat))
          ])
        ]
