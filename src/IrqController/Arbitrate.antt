-- ===== src/IrqController/Arbitrate.antt =====
-- The arbitration loop of IRQ_CMD_PROCESSING: which interrupt it chooses.
use wolf_cpuemulator.Common.{
  ℕ, zero, suc, ◌+◌, ◌≤◌, ◌<◌, ◌≡◌, refl, arith, Bool, true, false, ◌==◌, ◌&&◌,
}
use wolf_cpuemulator.Common.{Option, none, some, List, [], ◌∷◌, get_elem?, ◌⊎◌, inl, inr, ◌∙◌, ap}
use wolf_cpuemulator.Common.{Bool-cases}
use wolf_cpuemulator.IrqController.State.{InterruptDesc, irq_max_prio}
use wolf_cpuemulator.IrqController.Commands.{is_candidate, arbitrate}

-- An interrupt that waits to be delivered: enabled, suspended and not ignored.
unfoldable pub is_pending : InterruptDesc → Bool
is_pending d = d.enabled == 1 && d.status == 1 && d.ignored == 0

-- Every pending interrupt of a table has at least the priority number `p`.
abbrev pub NoneBelow : List InterruptDesc → ℕ → Type 0
NoneBelow ds p =
    (j : ℕ) (e : InterruptDesc) → get_elem? ds j ≡ some e → is_pending e ≡ true → p ≤ e.prio

-- Place `k` holds the pending interrupt of the lowest priority number, the first of these.
pub record Wins (ds : List InterruptDesc) (k : ℕ) (d : InterruptDesc) : Type 0 where
  pub placed : get_elem? ds k ≡ some d
  pub pending : is_pending d ≡ true
  pub least : NoneBelow ds d.prio
  pub first :
      (j : ℕ) (e : InterruptDesc)
      → j < k
      → get_elem? ds j ≡ some e
      → is_pending e ≡ true
      → d.prio < e.prio

-- What the loop returns from index `i` on, with the best priority `p` and choice `m` so far.
abbrev Outcome : List InterruptDesc → ℕ → ℕ → Option ℕ → Option ℕ → Type 0
Outcome ds i p m r =
    ((r ≡ m) × NoneBelow ds p)
    ⊎ ((k : ℕ) × (d : InterruptDesc) × (r ≡ some (i + k)) × (d.prio < p) × Wins ds k d)

NoneBelow-cons :
    (x : InterruptDesc) (ds : List InterruptDesc) (p : ℕ)
    → (is_pending x ≡ true → p ≤ x.prio)
    → NoneBelow ds p
    → NoneBelow (x ∷ ds) p
NoneBelow-cons x ds p h t zero e at live = ground (arith, h)
NoneBelow-cons x ds p h t (suc j) e at live = t j e at live

Wins-cons :
    (x : InterruptDesc) (ds : List InterruptDesc) (k : ℕ) (d : InterruptDesc)
    → (is_pending x ≡ true → d.prio < x.prio)
    → Wins ds k d
    → Wins (x ∷ ds) (suc k) d
Wins-cons x ds k d h w = record {
  placed = w.placed;
  pending = w.pending;
  least = NoneBelow-cons x ds d.prio (λ live. omega (arith, h live)) w.least;
  first = earlier;
}
  where
    earlier :
        (j : ℕ) (e : InterruptDesc)
        → j < suc k
        → get_elem? (x ∷ ds) j ≡ some e
        → is_pending e ≡ true
        → d.prio < e.prio
    earlier zero e lt at live = ground (arith, h)
    earlier (suc j) e lt at live = w.first j e (omega arith) at live

Wins-head :
    (x : InterruptDesc) (ds : List InterruptDesc)
    → is_pending x ≡ true
    → NoneBelow ds x.prio
    → Wins (x ∷ ds) 0 x
Wins-head x ds live t = record {
  placed = refl;
  pending = live;
  least = NoneBelow-cons x ds x.prio (λ _. omega arith) t;
  first = λ j e lt. absurd (omega arith);
}

candidate_iff :
    (d : InterruptDesc) (p : ℕ)
    → (is_candidate d p ≡ true → (is_pending d ≡ true) × (d.prio < p))
      × (is_candidate d p ≡ false → is_pending d ≡ true → p ≤ d.prio)
unfolding is_candidate is_pending
candidate_iff d p = (λ h. ground arith, λ h k. ground arith)

arbitrate-Outcome :
    (ds : List InterruptDesc) (i p : ℕ) (m : Option ℕ) → Outcome ds i p m (arbitrate ds i p m)
unfolding arbitrate
arbitrate-Outcome [] i p m = inl (refl, λ j e at. cc)
arbitrate-Outcome (x ∷ ds) i p m = elim (Bool-cases (is_candidate x p)) [
  | inl e ↦
      let (live, less) = (candidate_iff x p).0 e in
      rw e (elim (arbitrate-Outcome ds (i + 1) x.prio (some i)) [
        | inl (r, none_below) ↦
            inr (0, x, r ∙ ap some (omega arith), less, Wins-head x ds live none_below)
        | inr (k, d, r, lt, w) ↦
            inr (suc k, d, r ∙ ap some (omega arith), omega arith, Wins-cons x ds k d (λ _. lt) w)
      ])
  | inr e ↦
      let other = (candidate_iff x p).1 e in
      rw e (elim (arbitrate-Outcome ds (i + 1) p m) [
        | inl (r, none_below) ↦ inl (r, NoneBelow-cons x ds p other none_below)
        | inr (k, d, r, lt, w) ↦ inr (
          suc k,
          d,
          r ∙ ap some (omega arith),
          lt,
          Wins-cons x ds k d (λ live. omega (arith, other live)) w,
        )
      ])
]

-- The arbitration chooses the pending interrupt of the lowest priority number, the first of these in
-- the table, if some pending interrupt has a priority number below 3; it chooses none exactly if
-- there is no such interrupt.
pub arbitrate_lem :
    (ds : List InterruptDesc)
    → ((arbitrate ds 0 irq_max_prio none ≡ none) × NoneBelow ds irq_max_prio)
      ⊎ ((k : ℕ) × (d : InterruptDesc) × (arbitrate ds 0 irq_max_prio none ≡ some k)
          × (d.prio < irq_max_prio)
          × Wins ds k d)
arbitrate_lem ds = elim (arbitrate-Outcome ds 0 irq_max_prio none) [
  | inl h ↦ inl h
  | inr (k, d, r, lt, w) ↦ inr (k, d, r ∙ ap some (omega arith), lt, w)
]

-- Only one interrupt wins the arbitration.
pub arbitrate-Wins :
    (ds : List InterruptDesc) (k : ℕ) (e : InterruptDesc)
    → Wins ds k e
    → e.prio < irq_max_prio
    → arbitrate ds 0 irq_max_prio none ≡ some k
arbitrate-Wins ds k e w urgent = elim (arbitrate_lem ds) [
  | inl (r, none_below) ↦ let high = none_below k e w.placed w.pending in absurd (omega arith)
  | inr (j, d, r, lt, v) ↦
      let below = λ (h : j < k). w.first j d h v.placed v.pending in
      let above = λ (h : k < j). v.first k e h w.placed w.pending in
      let least = w.least j d v.placed v.pending in
      let least' = v.least k e w.placed w.pending in r ∙ ap some (ground arith)
]
