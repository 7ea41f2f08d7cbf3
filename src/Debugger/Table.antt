-- ===== src/Debugger/Table.antt =====
-- The table of breakpoints as a set of addresses.
use wolf_cpuemulator.Common.{
  ℕ, ◌+◌, ◌≡◌, ◌≤◌, refl, arith, Bool, false, ◌==◌, ◌||◌, ◌&&◌, if◌then◌else◌, none, some, List, [],
  ◌∷◌, flag, Bool-cases, inl, inr, ==_iff,
}
use wolf_cpuemulator.Debugger.{
  BreakpointController, place_of, add_element, breakpoint_set, find_element, breakpoint_get,
  no_breakpoints, free_break_execution,
}

-- How often an address stands in a chain
abbrev pub count : ℕ → List ℕ → ℕ
count q [] = 0
count q (x ∷ chain) = flag (x == q) + count q chain

-- The specification: the addresses that were asked for, in their order
abbrev pub member : ℕ → List ℕ → Bool
member q [] = false
member q (x ∷ xs) = x == q || member q xs

-- The table after breakpoints were set one after the other, the last of the list first
abbrev pub set_all : List ℕ → BreakpointController
set_all [] = no_breakpoints
set_all (pc ∷ pcs) = breakpoint_set (set_all pcs) pc

find-add :
    (chain : List ℕ) (pc q : ℕ)
    → find_element (add_element chain pc) q ≡ (if pc == q then some q else find_element chain q)
unfolding find_element add_element
find-add [] pc q = ground arith
find-add (x ∷ chain) pc q = ground (arith, find-add chain pc q)

count-add :
    (chain : List ℕ) (pc q : ℕ)
    → count q (add_element chain pc)
      ≡ (if (pc == q) && (count q chain == 0) then 1 else count q chain)
unfolding add_element
count-add [] pc q = ground arith
count-add (x ∷ chain) pc q = ground (arith, count-add chain pc q)

get-set :
    (ctrl : BreakpointController) (pc q : ℕ)
    → breakpoint_get (breakpoint_set ctrl pc) q
      ≡ (if pc == q then some q else breakpoint_get ctrl q)
unfolding breakpoint_get breakpoint_set
get-set ctrl pc q = elim (Bool-cases (pc == q)) [
  | inl e ↦
      let same = (==_iff pc q).0 e in
      rw (same) (ground (arith, find-add (ctrl.hashtable (place_of q)) q q))
  | inr e ↦ rw e (ground (arith, find-add (ctrl.hashtable (place_of q)) pc q))
]

-- No address stands twice in a chain, and none stands in a chain that is not its own.
pub record IsTable (ctrl : BreakpointController) : Type 0 where
  pub once : (i q : ℕ) → count q (ctrl.hashtable i) ≤ 1
  pub placed : (i q : ℕ) → (i == place_of q) ≡ false → count q (ctrl.hashtable i) ≡ 0

breakpoint_set-IsTable :
    (ctrl : BreakpointController) (pc : ℕ) → IsTable ctrl → IsTable (breakpoint_set ctrl pc)
unfolding breakpoint_set
breakpoint_set-IsTable ctrl pc w = record {
  once = λ i q. ground (arith, count-add (ctrl.hashtable i) pc q, w.once i q);
  placed = λ i q h. elim (Bool-cases (pc == q)) [
    | inl e ↦ let same = (==_iff pc q).0 e in rw same (rw h (w.placed i q h))
    | inr e ↦ ground (arith, count-add (ctrl.hashtable i) pc q, w.placed i q h)
  ];
}

set_all-IsTable : (pcs : List ℕ) → IsTable (set_all pcs)
unfolding no_breakpoints
set_all-IsTable [] = record { once = λ i q. omega arith; placed = λ i q h. refl }
set_all-IsTable (pc ∷ pcs) = breakpoint_set-IsTable (set_all pcs) pc (set_all-IsTable pcs)

-- The table of breakpoints refines the set of addresses that were set, in whatever order: a lookup
-- finds an address exactly if it was set, and no chain holds an address twice or one of another
-- place. Freeing the table leaves the empty set.
pub set_all_lem :
    (pcs : List ℕ) (q : ℕ)
    → (breakpoint_get (set_all pcs) q ≡ (if member q pcs then some q else none))
      × IsTable (set_all pcs)
      × (breakpoint_get (free_break_execution (set_all pcs)) q ≡ none)
unfolding breakpoint_get free_break_execution no_breakpoints
set_all_lem pcs q = (found pcs, set_all-IsTable pcs, refl)
  where
    found :
        (pcs : List ℕ) → breakpoint_get (set_all pcs) q ≡ (if member q pcs then some q else none)
    found [] = refl
    found (pc ∷ pcs) = ground (arith, get-set (set_all pcs) pc q, found pcs)
