-- ===== src/Cache/Reread.antt =====
-- A read of a cache changes the marks of its lines, and nothing that a later read sees.
use wolf_cpuemulator.Common.{
  ℕ, ◌≡◌, refl, arith, Bool, true, false, ◌==◌, ◌||◌, ◌&&◌, not, ◌∙◌, ap, inl, inr,
}
use wolf_cpuemulator.Common.{
  flag, is_set, if◌then◌else◌, Bool-cases, all_below, all_below_sound, same, same-eq, both_true,
  ==_iff, sym, ◌&&&◌, ◌-◌, ◌^◌,
}
use wolf_cpuemulator.Logic.{mux8}
use wolf_cpuemulator.Cache.{
  CacheGroup, CacheLine, read_group, mark_used, mark_unused, is_hit, set_group, rd_cache_l1_groups,
  l1_tag_of, l1_cgroup,
}

-- The marks of a line that loads and reads leave: empty, valid, or valid and latest used.
abbrev pub marked : ℕ → Bool
marked valid = valid == 0 || valid == 1 || valid == 3

pub record IsMarked (group : CacheGroup) : Type 0 where
  pub first_marked : marked group.cache_lines_1.valid ≡ true
  pub second_marked : marked group.cache_lines_2.valid ≡ true

-- Marking a line leaves it as valid as it was, if a line that hits was valid.
unfoldable keeps_valid : ℕ → Bool → Bool → Bool
keeps_valid v h1 h2 =
    not (marked v)
    || (((h1 && not (is_set v))
          || same (is_set (mark_unused (flag h2) (mark_used (flag h1) v))) (is_set v))
        && ((h2 && not (is_set v))
            || same (is_set (mark_used (flag h2) (mark_unused (flag h1) v))) (is_set v)))

keeps_valid_table :
    all_below 4 (λ v.
      keeps_valid v true true
      && keeps_valid v true false
      && keeps_valid v false true
      && keeps_valid v false false)
    ≡ true
unfolding all_below keeps_valid mark_unused mark_used mux8 same
keeps_valid_table = refl

pick :
    (f : Bool → Bool → Bool) (a b : Bool)
    → (f true true && f true false && f false true && f false false) ≡ true
    → f a b ≡ true
pick f true true h = ground (arith, h)
pick f true false h = ground (arith, h)
pick f false true h = ground (arith, h)
pick f false false h = ground (arith, h)

keeps_valid_lem : (v : ℕ) (h1 h2 : Bool) → marked v ≡ true → keeps_valid v h1 h2 ≡ true
keeps_valid_lem v h1 h2 m = pick (keeps_valid v) h1 h2 (
    all_below_sound 4
      (λ v.
        keeps_valid v true true
        && keeps_valid v true false
        && keeps_valid v false true
        && keeps_valid v false false)
      v keeps_valid_table (ground (arith, m)))

first_kept :
    (v : ℕ) (h1 h2 : Bool)
    → marked v ≡ true
    → (h1 && not (is_set v)) ≡ false
    → is_set (mark_unused (flag h2) (mark_used (flag h1) v)) ≡ is_set v
unfolding keeps_valid
first_kept v h1 h2 m k = same-eq _ _ (both_true _ _ (rw (m, k) at (keeps_valid_lem v h1 h2 m))).0

second_kept :
    (v : ℕ) (h1 h2 : Bool)
    → marked v ≡ true
    → (h2 && not (is_set v)) ≡ false
    → is_set (mark_used (flag h2) (mark_unused (flag h1) v)) ≡ is_set v
unfolding keeps_valid
second_kept v h1 h2 m k = same-eq _ _ (both_true _ _ (rw (m, k) at (keeps_valid_lem v h1 h2 m))).1

hit_is_valid : (line : CacheLine) (t : ℕ) → (is_hit line t && not (is_set line.valid)) ≡ false
unfolding is_hit
hit_is_valid line t = ground arith

is_hit_same :
    (line : CacheLine) (v t : ℕ)
    → is_set v ≡ is_set line.valid
    → is_hit (record line { valid = v }) t ≡ is_hit line t
unfolding is_hit
is_hit_same line v t e = rw e refl

same_hits :
    (g : CacheGroup) (count t rela t' : ℕ)
    → IsMarked g
    → let g' = (read_group count g t rela).1 in
      (is_hit g'.cache_lines_1 t' ≡ is_hit g.cache_lines_1 t')
      × (is_hit g'.cache_lines_2 t' ≡ is_hit g.cache_lines_2 t')
unfolding read_group
same_hits g count t rela t' w =
    let l1 = g.cache_lines_1 in
    let l2 = g.cache_lines_2 in
    let h1 = is_hit l1 t in
    let h2 = is_hit l2 t in
    (
      is_hit_same l1 _ t' (first_kept l1.valid h1 h2 w.first_marked (hit_is_valid l1 t)),
      is_hit_same l2 _ t' (second_kept l2.valid h1 h2 w.second_marked (hit_is_valid l2 t)),
    )

read_group-read_group :
    (g : CacheGroup) (count t rela t' rela' : ℕ)
    → IsMarked g
    → (read_group count (read_group count g t rela).1 t' rela').0 ≡ (read_group count g t' rela').0
unfolding read_group
read_group-read_group g count t rela t' rela' w =
    let (e1, e2) = same_hits g count t rela t' w in rw (e1, e2) refl

rd_l1_eq :
    (groups : ℕ → CacheGroup) (b : ℕ)
    → (rd_cache_l1_groups groups b).0
      ≡ (read_group 16 (groups (l1_cgroup b)) (l1_tag_of b) (b &&& 2 ^ 5 - 1)).0
unfolding rd_cache_l1_groups
rd_l1_eq groups b = refl

left_group :
    (groups : ℕ → CacheGroup) (a i : ℕ)
    → (rd_cache_l1_groups groups a).1 i ≡ (
        if i == l1_cgroup a
        then (read_group 16 (groups (l1_cgroup a)) (l1_tag_of a) (a &&& 2 ^ 5 - 1)).1
        else groups i)
unfolding rd_cache_l1_groups set_group
left_group groups a i = refl

-- In a first level whose lines carry the marks that loads and reads leave, a read of `a` does not
-- change what a later read of any address `b` gives: neither the hit nor the bytes.
pub rd_cache_l1_groups-rd_cache_l1_groups :
    (groups : ℕ → CacheGroup) (a b : ℕ)
    → IsMarked (groups (l1_cgroup a))
    → (rd_cache_l1_groups (rd_cache_l1_groups groups a).1 b).0 ≡ (rd_cache_l1_groups groups b).0
rd_cache_l1_groups-rd_cache_l1_groups groups a b w =
    let group = groups (l1_cgroup a) in
    let at = b &&& 2 ^ 5 - 1 in
    elim (Bool-cases (l1_cgroup b == l1_cgroup a)) [
      | inl e ↦
          let q = (==_iff (l1_cgroup b) (l1_cgroup a)).0 e in
          rw (rd_l1_eq (rd_cache_l1_groups groups a).1 b, rd_l1_eq groups b)
            (rw (left_group groups a (l1_cgroup b), e)
              (read_group-read_group group 16 (l1_tag_of a) (a &&& 2 ^ 5 - 1) (l1_tag_of b) at w
                ∙ ap (λ i. (read_group 16 (groups i) (l1_tag_of b) at).0) (sym q)))
      | inr e ↦
          rw (rd_l1_eq (rd_cache_l1_groups groups a).1 b, rd_l1_eq groups b)
            (rw (left_group groups a (l1_cgroup b), e) refl)
    ]
