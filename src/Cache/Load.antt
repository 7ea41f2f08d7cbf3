-- ===== src/Cache/Load.antt =====
-- Reads after a load into a fresh group.
use wolf_cpuemulator.Common.{ℕ, ◌/◌, ◌%◌, ◌^◌, ◌<◌, ◌≡◌, refl, arith, Bool, true, ◌==◌, ◌||◌, ◌&&◌}
use wolf_cpuemulator.Common.{flag, if◌then◌else◌, ltb, ◌>>◌, ◌&&&◌, ◌-◌}
use wolf_cpuemulator.Common.Bits.{bit_and_mask}
use wolf_cpuemulator.Logic.{mux8}
use wolf_cpuemulator.Logic.Select.{mux8_if, mux32_if}
use wolf_cpuemulator.Cache.{
  CacheGroup, read_group, load_group, line_write, mark_used, mark_unused, is_hit, first_written,
  second_written, rd_cache_l1_groups, ld_cache_l1, set_group, empty_line, rd_cache_l2_groups,
  ld_cache_l2, l1_tag_of, l2_tag_of, l1_cgroup, l2_cgroup,
}

abbrev pub empty_group : CacheGroup
empty_group = record { cache_lines_1 = empty_line; cache_lines_2 = empty_line }

-- The first load into a group writes both lines, and leaves the tag of the second one.
loaded_lines :
    (count bits tag : ℕ) (data' : ℕ → ℕ)
    → let g = load_group count bits empty_group tag data' in
      (g.cache_lines_1.valid ≡ 1)
      × (g.cache_lines_2.valid ≡ 3)
      × (g.cache_lines_1.tag ≡ tag % 2 ^ 32 % 2 ^ bits)
      × (g.cache_lines_2.tag ≡ 0)
unfolding load_group mark_used mark_unused first_written second_written mux8
loaded_lines count bits tag data' = (refl, refl, rw (mux32_if true 0 tag) refl, refl)

line_write_lem :
    (b : Bool) (count : ℕ) (offset data' : ℕ → ℕ) (i : ℕ)
    → line_write count (flag b) offset data' i
      ≡ (if ltb i count then (if b then data' i % 2 ^ 8 else offset i % 2 ^ 8) else offset i)
unfolding line_write
line_write_lem b count offset data' i = rw (mux8_if b (offset i) (data' i)) refl

both_written : second_written (mark_used 1 0) (mark_unused 1 0) ≡ true
unfolding second_written mark_used mark_unused mux8
both_written = refl

loaded_bytes :
    (count bits tag : ℕ) (data' : ℕ → ℕ) (i : ℕ)
    → let g = load_group count bits empty_group tag data' in
      (g.cache_lines_1.offset i ≡ (if ltb i count then data' i % 2 ^ 8 else 0))
      × (g.cache_lines_2.offset i ≡ (if ltb i count then data' i % 2 ^ 8 else 0))
unfolding load_group
loaded_bytes count bits tag data' i =
    rw both_written
      (line_write_lem true count (λ _. 0) data' i, line_write_lem true count (λ _. 0) data' i)

loaded_hits :
    (count bits tag t : ℕ) (data' : ℕ → ℕ)
    → tag < 2 ^ 32
    → let g = load_group count bits empty_group tag data' in
      (is_hit g.cache_lines_1 t ≡ (tag % 2 ^ bits == t)) × (is_hit g.cache_lines_2 t ≡ (t == 0))
unfolding is_hit
loaded_hits count bits tag t data' h =
    let (v1, v2, t1, t2) = loaded_lines count bits tag data' in
    let small : tag % 2 ^ 32 ≡ tag = omega arith in
    (rw (v1, t1, small) (ground arith), rw (v2, t2) (ground arith))

-- A read of the group after its first load, with the tag `t`
read-loaded :
    (count bits tag t rela : ℕ) (data' : ℕ → ℕ) (i : ℕ)
    → tag < 2 ^ 32
    → let stat = (read_group count (load_group count bits empty_group tag data') t rela).0 in
      (stat.hit ≡ flag (tag % 2 ^ bits == t || t == 0))
      × (stat.offset i
          ≡ (if ltb i count && (tag % 2 ^ bits == t || t == 0) then data' i % 2 ^ 8 else 0))
unfolding read_group
read-loaded count bits tag t rela data' i h =
    let g = load_group count bits empty_group tag data' in
    let line1 = g.cache_lines_1 in
    let line2 = g.cache_lines_2 in
    let (hit1, hit2) = loaded_hits count bits tag t data' h in
    let (b1, b2) = loaded_bytes count bits tag data' i in
    let first = line_write count (flag (tag % 2 ^ bits == t)) (λ _. 0) line1.offset in
    let w1 = line_write_lem (tag % 2 ^ bits == t) count (λ _. 0) line1.offset i in
    let w2 = line_write_lem (t == 0) count first line2.offset i in
    rw (hit1, hit2, w2, w1, b1, b2) (ground arith, ground arith)

same_l1_group : (a b : ℕ) → a / 2 ^ 5 % 2 ^ 9 ≡ b / 2 ^ 5 % 2 ^ 9 → l1_cgroup b ≡ l1_cgroup a
same_l1_group a b h = omega (arith, bit_and_mask 9 (a >> 5), bit_and_mask 9 (b >> 5))

same_l2_group : (a b : ℕ) → a / 2 ^ 7 % 2 ^ 10 ≡ b / 2 ^ 7 % 2 ^ 10 → l2_cgroup b ≡ l2_cgroup a
same_l2_group a b h = omega (arith, bit_and_mask 10 (a >> 7), bit_and_mask 10 (b >> 7))

set_group_self : (groups : ℕ → CacheGroup) (i : ℕ) (g : CacheGroup) → set_group groups i g i ≡ g
unfolding set_group
set_group_self groups i g = ground arith

rd_cache_l1_groups_eq :
    (groups : ℕ → CacheGroup) (b : ℕ)
    → (rd_cache_l1_groups groups b).0
      ≡ (read_group 16 (groups (l1_cgroup b)) (l1_tag_of b) (b &&& 2 ^ 5 - 1)).0
unfolding rd_cache_l1_groups
rd_cache_l1_groups_eq groups b = refl

rd_cache_l2_groups_eq :
    (groups : ℕ → CacheGroup) (b : ℕ)
    → (rd_cache_l2_groups groups b).0
      ≡ (read_group 128 (groups (l2_cgroup b)) (l2_tag_of b) (b &&& 2 ^ 7 - 1)).0
unfolding rd_cache_l2_groups
rd_cache_l2_groups_eq groups b = refl

ld_cache_l1_eq :
    (groups : ℕ → CacheGroup) (a : ℕ) (data' : ℕ → ℕ)
    → ld_cache_l1 groups a data' (l1_cgroup a)
      ≡ load_group 16 18 (groups (l1_cgroup a)) (l1_tag_of a) data'
unfolding ld_cache_l1
ld_cache_l1_eq groups a data' = set_group_self groups (l1_cgroup a) _

ld_cache_l2_eq :
    (groups : ℕ → CacheGroup) (a : ℕ) (data' : ℕ → ℕ)
    → ld_cache_l2 groups a data' (l2_cgroup a)
      ≡ load_group 128 15 (groups (l2_cgroup a)) (l2_tag_of a) data'
unfolding ld_cache_l2
ld_cache_l2_eq groups a data' = set_group_self groups (l2_cgroup a) _

-- After the first load of a group of the first level, with the data of address `a`, a read of
-- address `b` of the same group hits exactly when bits 9 to 24 of both agree or those of `b` are 0:
-- bits 25 to 31 play no part, and the second line answers for tag 0 with the data of `a`. A hit
-- gives the first 16 of the line's 32 bytes; all others read as 0.
pub rd_cache_l1_groups-ld_cache_l1 :
    (groups : ℕ → CacheGroup) (a b i : ℕ) (data' : ℕ → ℕ)
    → groups (l1_cgroup a) ≡ empty_group
    → a / 2 ^ 5 % 2 ^ 9 ≡ b / 2 ^ 5 % 2 ^ 9
    → let stat = (rd_cache_l1_groups (ld_cache_l1 groups a data') b).0 in
      let hit = a / 2 ^ 9 % 2 ^ 16 == b / 2 ^ 9 % 2 ^ 16 || b / 2 ^ 9 % 2 ^ 16 == 0 in
      (stat.hit ≡ flag hit) × (stat.offset i ≡ (if ltb i 16 && hit then data' i % 2 ^ 8 else 0))
rd_cache_l1_groups-ld_cache_l1 groups a b i data' fresh same =
    let kept : l1_tag_of a % 2 ^ 18 ≡ l1_tag_of a = omega arith in
    let found =
      read-loaded 16 18 (l1_tag_of a) (l1_tag_of b) (b &&& 2 ^ 5 - 1) data' i (omega arith) in
    rw
      (
        rd_cache_l1_groups_eq (ld_cache_l1 groups a data') b,
        same_l1_group a b same,
        ld_cache_l1_eq groups a data',
        fresh,
      )
      (rw kept at found)

-- After the first load of a group of the second level, with the data of address `a`, a read of
-- address `b` of the same group hits exactly when bits 10 to 24 of `a` are bits 10 to 25 of `b`, or
-- the latter are 0, so an address with bit 25 set never hits. A hit gives all 128 bytes.
pub rd_cache_l2_groups-ld_cache_l2 :
    (groups : ℕ → CacheGroup) (a b i : ℕ) (data' : ℕ → ℕ)
    → groups (l2_cgroup a) ≡ empty_group
    → a / 2 ^ 7 % 2 ^ 10 ≡ b / 2 ^ 7 % 2 ^ 10
    → let stat = (rd_cache_l2_groups (ld_cache_l2 groups a data') b).0 in
      let hit = a / 2 ^ 10 % 2 ^ 15 == b / 2 ^ 10 % 2 ^ 16 || b / 2 ^ 10 % 2 ^ 16 == 0 in
      (stat.hit ≡ flag hit) × (stat.offset i ≡ (if ltb i 128 && hit then data' i % 2 ^ 8 else 0))
rd_cache_l2_groups-ld_cache_l2 groups a b i data' fresh same =
    let cut : l2_tag_of a % 2 ^ 15 ≡ a / 2 ^ 10 % 2 ^ 15 = omega arith in
    let found =
      read-loaded 128 15 (l2_tag_of a) (l2_tag_of b) (b &&& 2 ^ 7 - 1) data' i (omega arith) in
    rw
      (
        rd_cache_l2_groups_eq (ld_cache_l2 groups a data') b,
        same_l2_group a b same,
        ld_cache_l2_eq groups a data',
        fresh,
      )
      (rw cut at found)
