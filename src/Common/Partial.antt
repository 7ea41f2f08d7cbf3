-- ===== src/Common/Partial.antt =====
-- Steps that C leaves undefined on some inputs: `none` is such an input.
use mathlib.Core.Path.{◌≡◌, refl}
use mathlib.Core.Logic.{◌≢◌}
use mathlib.Core.Option.{Option, none, some}

infixl 5 ◌>>=◌
abbrev pub ◌>>=◌ {ℓ κ} : {A : Type ℓ} {B : Type κ} → Option A → (A → Option B) → Option B
none >>= f = none
some a >>= f = f a

-- Inversion of a chain that succeeded.
pub >>=-eq-some {ℓ κ} :
    {A : Type ℓ} {B : Type κ} (m : Option A) (f : A → Option B) {b : B}
    → (m >>= f) ≡ some b
    → (a : A) × (m ≡ some a) × (f a ≡ some b)
>>=-eq-some none f h = cc
>>=-eq-some (some a) f h = (a, refl, h)

pub eq_of_some {ℓ} : {A : Type ℓ} {a b : A} → some a ≡ some b → a ≡ b
eq_of_some h = cc

pub >>=-ne-none {ℓ κ} :
    {A : Type ℓ} {B : Type κ} (m : Option A) (f : A → Option B)
    → m ≢ none
    → ((a : A) → m ≡ some a → f a ≢ none)
    → (m >>= f) ≢ none
>>=-ne-none none f h k = absurd (h refl)
>>=-ne-none (some a) f h k = k a refl

pub some_of-ne-none {ℓ} : {A : Type ℓ} (m : Option A) → m ≢ none → (a : A) × (m ≡ some a)
some_of-ne-none none h = absurd (h refl)
some_of-ne-none (some a) h = (a, refl)
