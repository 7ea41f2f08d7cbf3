-- ===== src/Cache/Marks.antt =====
-- The marks of the lines of both caches: an invariant of every operation.
use wolf_cpuemulator.Common.{
  ℕ, ◌≡◌, refl, arith, Bool, true, false, ◌||◌, ◌&&◌, not, flag, all_below, all_below_sound,
}
use wolf_cpuemulator.Common.{◌==◌, Bool-cases, inl, inr, ◌&&&◌, ◌-◌, ◌^◌}
use wolf_cpuemulator.Logic.{mux8}
use wolf_cpuemulator.Cache.{
  CacheGroup, read_group, load_group, mark_used, mark_unused, set_group, rd_cache_l1_groups,
  rd_cache_l2_groups, ld_cache_l1, ld_cache_l2, init_group, l1_cgroup, l2_cgroup, l1_tag_of,
  l2_tag_of,
}
use wolf_cpuemulator.Cache.Reread.{marked, IsMarked}

marks_table :
    all_below 4 (λ v.
      not (marked v)
      || (marked (mark_used 1 v)
          && marked (mark_used 0 v)
          && marked (mark_unused 1 v)
          && marked (mark_unused 0 v)))
    ≡ true
unfolding all_below mark_used mark_unused mux8
marks_table = refl

marks_kept :
    (v : ℕ)
    → marked v ≡ true
    → (marked (mark_used 1 v)
        && marked (mark_used 0 v)
        && marked (mark_unused 1 v)
        && marked (mark_unused 0 v))
      ≡ true
marks_kept v m =
    let t =
      all_below_sound 4
        (λ v.
          not (marked v)
          || (marked (mark_used 1 v)
              && marked (mark_used 0 v)
              && marked (mark_unused 1 v)
              && marked (mark_unused 0 v)))
        v marks_table (ground (arith, m)) in
    rw m at t

used_kept : (v : ℕ) (b : Bool) → marked v ≡ true → marked (mark_used (flag b) v) ≡ true
used_kept v true m = ground (arith, marks_kept v m)
used_kept v false m = ground (arith, marks_kept v m)

unused_kept : (v : ℕ) (b : Bool) → marked v ≡ true → marked (mark_unused (flag b) v) ≡ true
unused_kept v true m = ground (arith, marks_kept v m)
unused_kept v false m = ground (arith, marks_kept v m)

read_group-IsMarked :
    (count : ℕ) (g : CacheGroup) (t rela : ℕ) → IsMarked g → IsMarked (read_group count g t rela).1
unfolding read_group
read_group-IsMarked count g t rela w = record {
  first_marked = unused_kept _ _ (used_kept _ _ w.first_marked);
  second_marked = used_kept _ _ (unused_kept _ _ w.second_marked);
}

load_group-IsMarked :
    (count bits : ℕ) (g : CacheGroup) (t : ℕ) (data' : ℕ → ℕ)
    → IsMarked g
    → IsMarked (load_group count bits g t data')
unfolding load_group
load_group-IsMarked count bits g t data' w = record {
  first_marked = unused_kept _ _ (used_kept _ _ w.first_marked);
  second_marked = used_kept _ _ (unused_kept _ _ w.second_marked);
}

set_group-IsMarked :
    (groups : ℕ → CacheGroup) (i : ℕ) (g : CacheGroup)
    → IsMarked g
    → ((j : ℕ) → IsMarked (groups j))
    → (j : ℕ) → IsMarked (set_group groups i g j)
unfolding set_group
set_group-IsMarked groups i g w all j = elim (Bool-cases (j == i)) [
  | inl e ↦ rw e w
  | inr e ↦ rw e (all j)
]

-- If every line of the groups is empty, valid, or valid and latest used, both reads and both loads of
-- the caches keep the lines so, and the lines of a fresh group are so.
pub caches-IsMarked :
    (groups : ℕ → CacheGroup) (addr : ℕ) (data' : ℕ → ℕ)
    → ((i : ℕ) → IsMarked (groups i))
    → (j : ℕ)
    → IsMarked (init_group j)
      × IsMarked ((rd_cache_l1_groups groups addr).1 j)
      × IsMarked ((rd_cache_l2_groups groups addr).1 j)
      × IsMarked (ld_cache_l1 groups addr data' j)
      × IsMarked (ld_cache_l2 groups addr data' j)
unfolding init_group rd_cache_l1_groups rd_cache_l2_groups ld_cache_l1 ld_cache_l2
caches-IsMarked groups addr data' all j =
    let i1 = l1_cgroup addr in
    let i2 = l2_cgroup addr in
    let t1 = l1_tag_of addr in
    let t2 = l2_tag_of addr in
    (
      record { first_marked = refl; second_marked = refl },
      set_group-IsMarked groups i1 _
          (read_group-IsMarked 16 (groups i1) t1 (addr &&& 2 ^ 5 - 1) (all i1)) all j,
      set_group-IsMarked groups i2 _
          (read_group-IsMarked 128 (groups i2) t2 (addr &&& 2 ^ 7 - 1) (all i2)) all j,
      set_group-IsMarked groups i1 _ (load_group-IsMarked 16 18 (groups i1) t1 data' (all i1)) all
          j,
      set_group-IsMarked groups i2 _ (load_group-IsMarked 128 15 (groups i2) t2 data' (all i2)) all
          j,
    )
