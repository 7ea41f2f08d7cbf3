-- ===== src/Common/Finite.antt =====
-- Statements over small ranges of numbers, decided by evaluation.
use Prim.Native.Nat.{ℕ, zero, suc, ◌<◌}
use mathlib.Core.Path.{◌≡◌}
use mathlib.Core.Bool.{Bool, true, ◌&&◌}
use native.Mathlib.Omega.{arith}

-- Whether a test holds of every number below a bound.
unfoldable pub all_below : (bound : ℕ) (test : ℕ → Bool) → Bool
all_below (suc k) test = all_below k test && test k
all_below zero test = true

pub all_below_sound :
    (bound : ℕ) (test : ℕ → Bool) (k : ℕ) → all_below bound test ≡ true → k < bound → test k ≡ true
unfolding all_below
all_below_sound (suc bound) test k holds below = ground (arith, all_below_sound bound test k)
all_below_sound zero test k holds below = absurd (omega arith)

pub all_below₂_sound :
    (n m : ℕ) (p : ℕ → ℕ → Bool) (x y : ℕ)
    → all_below n (λ a. all_below m (p a)) ≡ true
    → x < n
    → y < m
    → p x y ≡ true
all_below₂_sound n m p x y h hx hy =
    all_below_sound m (p x) y (all_below_sound n (λ a. all_below m (p a)) x h hx) hy

pub all_below₃_sound :
    (n m k : ℕ) (p : ℕ → ℕ → ℕ → Bool) (x y z : ℕ)
    → all_below n (λ a. all_below m (λ b. all_below k (p a b))) ≡ true
    → x < n
    → y < m
    → z < k
    → p x y z ≡ true
all_below₃_sound n m k p x y z h hx hy hz =
    all_below_sound k (p x y) z (all_below₂_sound n m (λ a b. all_below k (p a b)) x y h hx hy) hz

pub all_below₅_sound :
    (n m k l j : ℕ) (p : ℕ → ℕ → ℕ → ℕ → ℕ → Bool) (x y z u v : ℕ)
    → all_below n
        (λ a. all_below m (λ b. all_below k (λ c. all_below l (λ d. all_below j (p a b c d)))))
      ≡ true
    → x < n
    → y < m
    → z < k
    → u < l
    → v < j
    → p x y z u v ≡ true
all_below₅_sound n m k l j p x y z u v h hx hy hz hu hv =
    all_below₂_sound l j (p x y z) u v
      (all_below₃_sound n m k (λ a b c. all_below l (λ d. all_below j (p a b c d))) x y z h hx hy
        hz)
      hu hv
