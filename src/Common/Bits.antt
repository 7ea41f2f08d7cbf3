-- ===== src/Common/Bits.antt =====
-- Laws of the native `bit_and`, `bit_or` and `bit_xor` at variables, from their digit recursion.
use Prim.Native.Nat.{ℕ, zero, suc, ◌+◌, ◌-◌, ◌*◌, ◌/◌, ◌%◌, ◌^◌, ◌≤◌, ◌<◌, min, max}
use Prim.Native.Nat.{bit_and, bit_or, digits, bitwise, bit_and-bitwise, bit_or-bitwise}
use Prim.Native.Nat.{differ, bit_xor, bit_xor-bitwise}
use mathlib.Core.Path.{◌≡◌, refl}
use native.Mathlib.Nat.{pow-suc, one-le-pow}
use native.Mathlib.Omega.{arith}

-- A digit recursion whose fuel is at least its first argument does not depend on the fuel.
module _ (base : ℕ → ℕ) (digit : ℕ → ℕ → ℕ) where
  fuel_free :
      (x y : ℕ) (k l : ℕ) → x ≤ l → x ≤ k → digits base digit k x y ≡ digits base digit l x y
  fuel_free zero y zero zero r s = refl
  fuel_free zero y zero (suc l) r s = refl
  fuel_free zero y (suc k) zero r s = refl
  fuel_free zero y (suc k) (suc l) r s = refl
  fuel_free (suc x) y zero l r s = absurd (omega arith)
  fuel_free (suc x) y (suc k) zero r s = absurd (omega arith)
  fuel_free (suc x) y (suc k) (suc l) r s =
      rw (fuel_free (suc x / 2) (y / 2) k l (omega arith) (omega arith))

  low_digit :
      (x y : ℕ)
      → bitwise base digit (suc x) y
        ≡ digit (suc x % 2) (y % 2) + 2 * bitwise base digit (suc x / 2) (y / 2)
  low_digit x y =
      let h = suc x / 2 in omega (arith, fuel_free h (y / 2) x h (omega arith) (omega arith))

-- The lowest digit of a disjunction and of a conjunction.
bit_or_step : (x y : ℕ) → bit_or x y ≡ bit_or (x / 2) (y / 2) * 2 + max (x % 2) (y % 2)
bit_or_step zero y = simp bit_or-bitwise (omega arith)
bit_or_step (suc x) y =
    let split = low_digit (λ v. v) max x y in simp bit_or-bitwise (omega (arith, split))

pub bit_and_step : (x y : ℕ) → bit_and x y ≡ bit_and (x / 2) (y / 2) * 2 + min (x % 2) (y % 2)
bit_and_step zero y = simp bit_and-bitwise (omega arith)
bit_and_step (suc x) y =
    let split = low_digit (λ v. 0) min x y in simp bit_and-bitwise (omega (arith, split))

bit_xor_step : (x y : ℕ) → bit_xor x y ≡ bit_xor (x / 2) (y / 2) * 2 + differ (x % 2) (y % 2)
bit_xor_step zero y = simp bit_xor-bitwise (omega arith)
bit_xor_step (suc x) y =
    let split = low_digit (λ v. v) differ x y in simp bit_xor-bitwise (omega (arith, split))

-- Induction on a bound of the first argument.
bit_and_comm_below : (n a b : ℕ) → a < n → bit_and a b ≡ bit_and b a
bit_and_comm_below zero a b h = absurd (omega arith)
bit_and_comm_below (suc n) zero b h = zero_case b b (omega arith)
  where
    zero_case : (k c : ℕ) → c ≤ k → bit_and 0 c ≡ bit_and c 0
    zero_case zero zero p = refl
    zero_case zero (suc c) p = absurd (omega arith)
    zero_case (suc k) zero p = refl
    zero_case (suc k) (suc c) p = omega (
      arith,
      bit_and_step 0 (suc c),
      bit_and_step (suc c) 0,
      zero_case k (suc c / 2) (omega arith),
    )
bit_and_comm_below (suc n) (suc a) b h = omega (
  arith,
  bit_and_step (suc a) b,
  bit_and_step b (suc a),
  bit_and_comm_below n (suc a / 2) (b / 2) (omega arith),
)

bit_and_comm : (a b : ℕ) → bit_and a b ≡ bit_and b a
bit_and_comm a b = bit_and_comm_below (suc a) a b (omega arith)

pub zero-bit_and : (b : ℕ) → bit_and 0 b ≡ 0
zero-bit_and b = bit_and-bitwise 0 b

bit_and-zero : (a : ℕ) → bit_and a 0 ≡ 0
bit_and-zero a = omega (arith, bit_and_comm a 0, zero-bit_and a)

pub zero-bit_or : (b : ℕ) → bit_or 0 b ≡ b
zero-bit_or b = bit_or-bitwise 0 b

pub bit_or-zero_below : (n a : ℕ) → a < n → bit_or a 0 ≡ a
bit_or-zero_below zero a h = absurd (omega arith)
bit_or-zero_below (suc n) zero h = refl
bit_or-zero_below (suc n) (suc a) h =
    omega (arith, bit_or_step (suc a) 0, bit_or-zero_below n (suc a / 2) (omega arith))

pub bit_or-zero : (a : ℕ) → bit_or a 0 ≡ a
bit_or-zero a = bit_or-zero_below (suc a) a (omega arith)

-- A mask of `k` low bits on the right is the remainder by `2 ^ k`.
pub bit_and_mask : (k a : ℕ) → bit_and a (2 ^ k - 1) ≡ a % 2 ^ k
bit_and_mask zero a = omega (arith, bit_and-zero a)
bit_and_mask (suc k) a = ground (
  arith,
  bit_and_step a (2 ^ suc k - 1),
  pow-suc 2 k,
  one-le-pow k 2,
  bit_and_mask k (a / 2),
  halves (2 ^ k) a,
)
  where
    halves : (p a : ℕ) → a % (2 * p) ≡ a / 2 % p * 2 + a % 2
    halves p a = grind arith

-- The same mask on the left.
pub mask-bit_and : (k a : ℕ) → bit_and (2 ^ k - 1) a ≡ a % 2 ^ k
mask-bit_and k a = omega (arith, bit_and_comm (2 ^ k - 1) a, bit_and_mask k a)

-- `(q << k) | r` is a sum when `r` fits `k` bits.
pub bit_or_fields : (k q r : ℕ) → r < 2 ^ k → bit_or (q * 2 ^ k) r ≡ q * 2 ^ k + r
bit_or_fields zero q r h = ground (arith, bit_or-zero q)
bit_or_fields (suc k) q r h = ground (
  arith,
  bit_or_step (q * 2 ^ suc k) r,
  doubled q k,
  bit_or_fields k q (r / 2) (omega (arith, pow-suc 2 k)),
)
  where
    doubled : (q k : ℕ) → q * 2 ^ suc k ≡ 2 * (q * 2 ^ k)
    doubled q k = rw pow-suc (omega arith)

-- `|` does not leave a range of bits.
pub bit_or-lt : (k a b : ℕ) → a < 2 ^ k → b < 2 ^ k → bit_or a b < 2 ^ k
bit_or-lt zero a b ha hb = ground (arith, bit_or-zero a)
bit_or-lt (suc k) a b ha hb = omega (
  arith,
  pow-suc 2 k,
  bit_or_step a b,
  bit_or-lt k (a / 2) (b / 2) (omega (arith, pow-suc 2 k)) (omega (arith, pow-suc 2 k)),
)

differ-lt : (a b : ℕ) → a < 2 → b < 2 → differ a b < 2
differ-lt zero zero h k = omega arith
differ-lt zero (suc b) h k = omega arith
differ-lt (suc a) zero h k = omega arith
differ-lt (suc zero) (suc zero) h k = omega arith
differ-lt (suc (suc a)) (suc b) h k = absurd (omega arith)
differ-lt (suc zero) (suc (suc b)) h k = absurd (omega arith)

pub bit_xor-lt : (k a b : ℕ) → a < 2 ^ k → b < 2 ^ k → bit_xor a b < 2 ^ k
bit_xor-lt zero zero zero ha hb = omega arith
bit_xor-lt zero zero (suc b) ha hb = absurd (omega arith)
bit_xor-lt zero (suc a) b ha hb = absurd (omega arith)
bit_xor-lt (suc k) a b ha hb = omega (
  arith,
  pow-suc 2 k,
  bit_xor_step a b,
  differ-lt (a % 2) (b % 2) (omega arith) (omega arith),
  bit_xor-lt k (a / 2) (b / 2) (omega (arith, pow-suc 2 k)) (omega (arith, pow-suc 2 k)),
)

bit_and-le_below : (n a b : ℕ) → a < n → bit_and a b ≤ b
bit_and-le_below zero a b h = absurd (omega arith)
bit_and-le_below (suc n) zero b h = omega (arith, zero-bit_and b)
bit_and-le_below (suc n) (suc a) b h =
    omega (arith, bit_and_step (suc a) b, bit_and-le_below n (suc a / 2) (b / 2) (omega arith))

-- `&` is below both of its arguments.
pub bit_and-le : (a b : ℕ) → bit_and a b ≤ b
bit_and-le a b = bit_and-le_below (suc a) a b (omega arith)

-- `|` of a number whose `k` low bits are clear and one below `2 ^ k`.
pub bit_or_low : (k q t r : ℕ) → t ≡ q * 2 ^ k → r < 2 ^ k → bit_or t r ≡ t + r
bit_or_low k q t r e h = rw e (bit_or_fields k q r h)

bit_or_comm_below : (n a b : ℕ) → a < n → b < n → bit_or a b ≡ bit_or b a
bit_or_comm_below zero a b h k = absurd (omega arith)
bit_or_comm_below (suc zero) zero zero h k = refl
bit_or_comm_below (suc zero) (suc a) b h k = absurd (omega arith)
bit_or_comm_below (suc zero) zero (suc b) h k = absurd (omega arith)
bit_or_comm_below (suc (suc n)) a b h k = omega (
  arith,
  bit_or_step a b,
  bit_or_step b a,
  bit_or_comm_below (suc n) (a / 2) (b / 2) (omega arith) (omega arith),
)

bit_or_comm : (a b : ℕ) → bit_or a b ≡ bit_or b a
bit_or_comm a b = bit_or_comm_below (suc (a + b)) a b (omega arith) (omega arith)

-- The same with the low part first.
pub bit_or_high : (k q r : ℕ) → r < 2 ^ k → bit_or r (q * 2 ^ k) ≡ q * 2 ^ k + r
bit_or_high k q r h = omega (arith, bit_or_comm r (q * 2 ^ k), bit_or_fields k q r h)

bit_or-le_below : (n a b : ℕ) → a < n → b ≤ bit_or a b
bit_or-le_below zero a b h = absurd (omega arith)
bit_or-le_below (suc n) zero b h = omega (arith, zero-bit_or b)
bit_or-le_below (suc n) (suc a) b h =
    omega (arith, bit_or_step (suc a) b, bit_or-le_below n (suc a / 2) (b / 2) (omega arith))

-- A number that has a bit set is not zero.
pub bit_or-pow-positive : (a k : ℕ) → 0 < bit_or a (2 ^ k)
bit_or-pow-positive a k =
    omega (arith, bit_or-le_below (suc a) a (2 ^ k) (omega arith), one-le-pow k 2)
