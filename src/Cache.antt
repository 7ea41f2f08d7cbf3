-- ===== src/Cache.antt =====
-- src/controllers/cache_controller.c and src/controllers/cache.c: the two levels of cache, each an
-- array of groups of two lines. An array of bytes is a function of the index.
pub mod Load
pub mod Reread
pub mod Marks
use wolf_cpuemulator.Common.{
  ℕ, ◌-◌, ◌^◌, Bool, ◌==◌, ◌||◌, ◌&&◌, not, ltb, flag, is_set, if◌then◌else◌,
}
use wolf_cpuemulator.Common.{u16, wrap, bit_xor, ◌>>◌, ◌&&&◌, ◌|||◌}
use wolf_cpuemulator.Logic.{mux8, mux32}

abbrev l1_tag : ℕ
l1_tag = 18

abbrev l1_offset : ℕ
l1_offset = 5

abbrev l1_group : ℕ
l1_group = 9

abbrev l2_tag : ℕ
l2_tag = 15

abbrev l2_offset : ℕ
l2_offset = 7

abbrev l2_group : ℕ
l2_group = 10

abbrev cache_valid_mask : ℕ
cache_valid_mask = 1

abbrev cache_latest_used_mask : ℕ
cache_latest_used_mask = 2

-- CACHE_VALID and CACHE_LATEST_USED
abbrev cache_valid : ℕ → Bool
cache_valid value = is_set (value &&& cache_valid_mask)

abbrev cache_latest_used : ℕ → Bool
cache_latest_used value = is_set (value &&& cache_latest_used_mask)

-- MACHINE_L1_CACHE_LINE and MACHINE_L2_CACHE_LINE
pub record CacheLine : Type 0 where
  pub valid : ℕ
  pub tag : ℕ
  pub offset : ℕ → ℕ

-- MACHINE_L1_CACHE_GROUP and MACHINE_L2_CACHE_GROUP
pub record CacheGroup : Type 0 where
  pub cache_lines_1 : CacheLine
  pub cache_lines_2 : CacheLine

-- L1_CACHE_RD_GROUP_RES and L2_CACHE_RD_GROUP_RES
pub record CacheRdGroupRes : Type 0 where
  pub offset : ℕ → ℕ
  pub hit : ℕ
  pub rela_addr : ℕ

-- L1_CACHE_LINE_WRITE, which writes 16 bytes, and L2_CACHE_MEM_LINE_WRITE, which writes 128
unfoldable pub line_write : ℕ → ℕ → (ℕ → ℕ) → (ℕ → ℕ) → ℕ → ℕ
line_write count cnd offset data' i =
    if ltb i count then mux8 cnd (offset i) (data' i) else offset i

-- The two assignments of CHANGE_USED_STATUS, into the 4-bit field
unfoldable pub mark_used : ℕ → ℕ → ℕ
mark_used replace valid =
    wrap 4 (mux8 replace valid (valid ||| (cache_valid_mask ||| cache_latest_used_mask)))

unfoldable pub mark_unused : ℕ → ℕ → ℕ
mark_unused replace valid =
    wrap 4 (mux8 replace valid (valid &&& bit_xor 0b1111 cache_latest_used_mask))

unfoldable pub is_hit : CacheLine → ℕ → Bool
is_hit line tag = line.tag == tag && is_set line.valid

-- What `rd_cache_l1_groups` and `rd_cache_l2_groups` do with the group that they found.
unfoldable pub read_group : ℕ → CacheGroup → ℕ → ℕ → CacheRdGroupRes × CacheGroup
unfolding line_write mark_used mark_unused is_hit
read_group count group tag rela_addr =
    let line1 = group.cache_lines_1 in
    let line2 = group.cache_lines_2 in
    let hit1 = flag (is_hit line1 tag) in
    let hit2 = flag (is_hit line2 tag) in
    (
      record {
        offset = line_write count hit2 (line_write count hit1 (λ _. 0) line1.offset) line2.offset;
        hit = flag (is_set hit1 || is_set hit2);
        rela_addr = rela_addr;
      },
      record {
        cache_lines_1 = record line1 { valid = mark_unused hit2 (mark_used hit1 line1.valid) };
        cache_lines_2 = record line2 { valid = mark_used hit2 (mark_unused hit1 line2.valid) };
      },
    )

-- `L1OffsetWritten` and `L2OffsetWritten`
unfoldable pub first_written : ℕ → Bool
first_written valid1 = not (cache_valid valid1) || (cache_valid valid1 && cache_latest_used valid1)

unfoldable pub second_written : ℕ → ℕ → Bool
second_written valid1 valid2 =
    (not (cache_valid valid2) && cache_valid valid1)
    || (cache_valid valid2 && cache_valid valid1 && cache_latest_used valid2)

-- What `ld_cache_l1` and `ld_cache_l2` do with the group. The tag that the first step gives to the
-- first line is left out: the second step gives the first line another one before it is read.
unfoldable pub load_group : ℕ → ℕ → CacheGroup → ℕ → (ℕ → ℕ) → CacheGroup
unfolding line_write mark_used mark_unused first_written second_written
load_group count tag_bits group tag data' =
    let line1 = group.cache_lines_1 in
    let line2 = group.cache_lines_2 in
    let written1 = flag (first_written line1.valid) in
    let valid1 = mark_used written1 line1.valid in
    let valid2 = mark_unused written1 line2.valid in
    let written2 = flag (second_written valid1 valid2) in
    record {
      cache_lines_1 = record {
        valid = mark_unused written2 valid1;
        tag = wrap tag_bits (mux32 written2 line2.tag tag);
        offset = line_write count written1 line1.offset data';
      };
      cache_lines_2 = record line2 {
        valid = mark_used written2 valid2;
        offset = line_write count written2 line2.offset data';
      };
    }

-- `cgroup` and `tag` of an address
abbrev pub l1_cgroup : ℕ → ℕ
l1_cgroup addr = addr >> l1_offset &&& 2 ^ l1_group - 1

abbrev pub l1_tag_of : ℕ → ℕ
l1_tag_of addr = u16 (addr >> l1_group)

abbrev pub l2_cgroup : ℕ → ℕ
l2_cgroup addr = addr >> l2_offset &&& 2 ^ l2_group - 1

abbrev pub l2_tag_of : ℕ → ℕ
l2_tag_of addr = u16 (addr >> l2_group)

-- The array of groups with one of them replaced
unfoldable pub set_group : (ℕ → CacheGroup) → ℕ → CacheGroup → ℕ → CacheGroup
set_group groups i group j = if j == i then group else groups j

unfoldable pub rd_cache_l1_groups : (ℕ → CacheGroup) → ℕ → CacheRdGroupRes × (ℕ → CacheGroup)
unfolding read_group set_group
rd_cache_l1_groups groups addr =
    let i = l1_cgroup addr in
    let (stat, group) = read_group 16 (groups i) (l1_tag_of addr) (addr &&& 2 ^ l1_offset - 1) in
    (stat, set_group groups i group)

unfoldable pub rd_cache_l2_groups : (ℕ → CacheGroup) → ℕ → CacheRdGroupRes × (ℕ → CacheGroup)
unfolding read_group set_group
rd_cache_l2_groups groups addr =
    let i = l2_cgroup addr in
    let (stat, group) = read_group 128 (groups i) (l2_tag_of addr) (addr &&& 2 ^ l2_offset - 1) in
    (stat, set_group groups i group)

unfoldable pub ld_cache_l1 : (ℕ → CacheGroup) → ℕ → (ℕ → ℕ) → ℕ → CacheGroup
unfolding load_group set_group
ld_cache_l1 groups addr data' =
    let i = l1_cgroup addr in
    set_group groups i (load_group 16 l1_tag (groups i) (l1_tag_of addr) data')

unfoldable pub ld_cache_l2 : (ℕ → CacheGroup) → ℕ → (ℕ → ℕ) → ℕ → CacheGroup
unfolding load_group set_group
ld_cache_l2 groups addr data' =
    let i = l2_cgroup addr in
    set_group groups i (load_group 128 l2_tag (groups i) (l2_tag_of addr) data')

-- `init_l1_group` and `init_l2_group`: every line is zero.
abbrev pub empty_line : CacheLine
empty_line = record { valid = 0; tag = 0; offset = λ _. 0 }

unfoldable pub init_group : ℕ → CacheGroup
init_group i = record { cache_lines_1 = empty_line; cache_lines_2 = empty_line }
