-- ===== src/Vm/SwapManager/Search.antt =====
-- The first slot that passes a test.
use cs270hw.Base.{
  ℕ, zero, suc, ◌+◌, ◌<◌, ◌≤◌, ◌≡◌, ap, refl, Bool, true, false, Bool-cases, inl, inr, Option, none,
  some, ◌==◌, if◌then◌else◌, arith,
}
use cs270hw.Base.Int.{ℤ}
use cs270hw.Machine.{Entry}
use cs270hw.Vm.SwapManager.{SwapManager, swap_size, search}
use cs270hw.Vm.SwapManager.Slots.{IsSound, holds, is_at_lem}

abbrev pub first : (ℕ → Bool) → ℕ → ℕ → Option ℕ
first f zero i = none
first f (suc n) i = let others = first f n (suc i) in if f i then some i else others

pub first_ext :
    (f g : ℕ → Bool) (n i : ℕ) → ((j : ℕ) → j < i + n → f j ≡ g j) → first f n i ≡ first g n i
first_ext f g zero i same = refl
first_ext f g (suc n) i same =
    let others = first_ext f g n (suc i) (λ j less. same j (omega arith)) in
    rw (same i (omega arith), others) refl

pub first_none : (f : ℕ → Bool) (n i : ℕ) → ((j : ℕ) → j < i + n → f j ≡ false) → first f n i ≡ none
first_none f zero i all = refl
first_none f (suc n) i all =
    rw (all i (omega arith)) (first_none f n (suc i) (λ j less. all j (omega arith)))

-- the only one
pub first_only :
    (f : ℕ → Bool) (n i k : ℕ)
    → i ≤ k
    → k < i + n
    → f k ≡ true
    → ((j : ℕ) → j < k → f j ≡ false)
    → first f n i ≡ some k
first_only f zero i k lo hi y before = absurd (omega arith)
first_only f (suc n) i k lo hi y before = elim (Bool-cases (f i)) [
  | inl now ↦
      let e : i ≡ k = elim (Bool-cases (i == k)) [
        | inl q ↦ ground arith
        | inr q ↦ let z = before i (ground arith) in cc
      ] in
      rw now (ap some e)
  | inr n' ↦
      let later : suc i ≤ k = elim (Bool-cases (i == k)) [
        | inl q ↦ let e : i ≡ k = ground arith in let z = ap f e in cc
        | inr q ↦ ground arith
      ] in
      rw n' (first_only f n (suc i) k later (omega arith) y before)
]

pub data IsFirst (f : ℕ → Bool) (n i : ℕ) : Option ℕ → Type 0 where
  hit :
      (k : ℕ)
      → i ≤ k
      → k < i + n
      → f k ≡ true
      → ((j : ℕ) → i ≤ j → j < k → f j ≡ false)
      → IsFirst f n i (some k)
  miss : ((j : ℕ) → i ≤ j → j < i + n → f j ≡ false) → IsFirst f n i none

-- the positions from `i` on, when `i` does not pass
skips : (f : ℕ → Bool) (i j : ℕ) → f i ≡ false → (suc i ≤ j → f j ≡ false) → i ≤ j → f j ≡ false
skips f i j z later lo = elim (Bool-cases (i == j)) [
  | inl q ↦ let e : i ≡ j = ground arith in let e' = ap f e in cc
  | inr q ↦ later (ground arith)
]

first-earlier :
    (f : ℕ → Bool) (n i : ℕ) {r : Option ℕ}
    → f i ≡ false
    → IsFirst f n (suc i) r
    → IsFirst f (suc n) i r
first-earlier f n i z (hit k lo hi y before) =
    hit k (omega arith) (omega arith) y (λ j lo' hi'. skips f i j z (λ l. before j l hi') lo')
first-earlier f n i z (miss none_at) =
    miss (λ j lo' hi'. skips f i j z (λ l. none_at j l (omega arith)) lo')

pub first_lem : (f : ℕ → Bool) (n i : ℕ) → IsFirst f n i (first f n i)
first_lem f zero i = miss (λ j lo hi. absurd (omega arith))
first_lem f (suc n) i = elim (Bool-cases (f i)) [
  | inl y ↦ rw y (hit i (omega arith) (omega arith) y (λ j lo hi. absurd (omega arith)))
  | inr z ↦ rw z (first-earlier f n i z (first_lem f n (suc i)))
]

module _ {F : Type 0} (table : ℕ → Option Entry) where
  pub search_lem :
      (n i : ℕ) (m : SwapManager F) (pid : ℤ) (vpn : ℕ)
      → IsSound table m
      → i + n ≤ swap_size
      → search table n i m pid vpn ≡ some (first (holds table m pid vpn) n i)
  unfolding search
  search_lem zero i m pid vpn sound fits = refl
  search_lem (suc n) i m pid vpn sound fits =
      let others = search_lem n (suc i) m pid vpn sound (omega arith) in
      let here = is_at_lem table m pid vpn i sound (omega arith) in
      elim (Bool-cases (holds table m pid vpn i)) [
        | inl y ↦ rw (here, others, y) refl
        | inr z ↦ rw (here, others, z) refl
      ]
