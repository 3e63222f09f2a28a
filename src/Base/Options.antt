-- ===== src/Base/Options.antt =====
-- Code that may stop at a failed ASSERT or at an access out of range: `none` is that stop.
use mathlib.Core.Path.{◌≡◌, refl}
use mathlib.Core.Logic.{◌⊎◌, inl, inr}
use mathlib.Core.Bool.{Bool, true, false}
use mathlib.Core.Option.{Option, none, some}

infixl 5 ◌>>=◌ ◌>>◌
abbrev pub ◌>>=◌ {ℓ κ} : {A : Type ℓ} {B : Type κ} → Option A → (A → Option B) → Option B
none >>= f = none
some a >>= f = f a

abbrev pub ◌>>◌ {κ} : {B : Type κ} → Option (Unit {0}) → Option B → Option B
m >> k = m >>= λ _. k

-- `ASSERT(b)` of threads/utility.h
abbrev pub assert : Bool → Option (Unit {0})
assert true = some tt
assert false = none

pub Option-cases {ℓ} : {A : Type ℓ} (o : Option A) → (o ≡ none) ⊎ ((a : A) × (o ≡ some a))
Option-cases none = inl refl
Option-cases (some a) = inr (a, refl)

-- Inversion of a run of two steps that did not stop.
pub >>=-eq-some {ℓ κ} :
    {A : Type ℓ} {B : Type κ} (m : Option A) (f : A → Option B) {b : B}
    → (m >>= f) ≡ some b
    → (a : A) × (m ≡ some a) × (f a ≡ some b)
>>=-eq-some none f h = cc
>>=-eq-some (some a) f h = (a, refl, h)

-- A failed ASSERT gives no result.
pub assert->>-eq-some {κ} :
    {B : Type κ} (b : Bool) (k : Option B) {r : B} → (assert b >> k) ≡ some r → k ≡ some r
assert->>-eq-some true k h = h
assert->>-eq-some false k h = cc

pub assert_passed {κ} : {B : Type κ} (b : Bool) (k : Option B) → b ≡ true → (assert b >> k) ≡ k
assert_passed true k h = refl
assert_passed false k h = cc
