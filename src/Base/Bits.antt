-- ===== src/Base/Bits.antt =====
-- The bits of a word, and what `&`, `|` and masks do to them.
use Prim.Native.Nat.{digits, bit_and-bitwise, bit_or-bitwise}
use native.Mathlib.Nat.{pow-suc}
use cs270hw.Base.{
  ℕ, zero, suc, ◌+◌, ◌-◌, ◌*◌, ◌/◌, ◌%◌, ◌^◌, ◌≤◌, ◌<◌, ◌≡◌, refl, ap, ◌∙◌, min, max, bit_and,
  bit_or, true, arith, ◌==◌, ==_iff, passes, passes_lem, if◌then◌else◌,
}

-- bit `k` of `w`, 0 or 1
abbrev pub bit : ℕ → ℕ → ℕ
bit w zero = w % 2
bit w (suc k) = bit (w / 2) k

pub bit-zero : (k : ℕ) → bit 0 k ≡ 0
bit-zero zero = refl
bit-zero (suc k) = bit-zero k

pub bit_le_one : (w k : ℕ) → bit w k ≤ 1
bit_le_one w zero = omega arith
bit_le_one w (suc k) = bit_le_one (w / 2) k

-- An operation on digits acts on each bit by itself.
bit-digits :
    (z : ℕ → ℕ) (f : ℕ → ℕ → ℕ)
    → ((b k : ℕ) → bit (z b) k ≡ f 0 (bit b k))
    → ((x y : ℕ) → x ≤ 1 → y ≤ 1 → f x y ≤ 1)
    → (n a b k : ℕ) → a ≤ n
    → bit (digits z f n a b) k ≡ f (bit a k) (bit b k)
bit-digits z f hz hf zero zero b k h = rw (bit-zero k) (hz b k)
bit-digits z f hz hf zero (suc a) b k h = absurd (omega arith)
bit-digits z f hz hf (suc n) zero b k h = rw (bit-zero k) (hz b k)
bit-digits z f hz hf (suc n) (suc a) b zero h =
    omega (arith, hf (suc a % 2) (b % 2) (omega arith) (omega arith))
bit-digits z f hz hf (suc n) (suc a) b (suc k) h =
    let half : (digits z f n (suc a / 2) (b / 2) * 2 + f (suc a % 2) (b % 2)) / 2
        ≡ digits z f n (suc a / 2) (b / 2) =
      omega (arith, hf (suc a % 2) (b % 2) (omega arith) (omega arith)) in
    ap (λ w. bit w k) half ∙ bit-digits z f hz hf n (suc a / 2) (b / 2) k (omega arith)

pub bit-bit_and : (a b k : ℕ) → bit (bit_and a b) k ≡ min (bit a k) (bit b k)
bit-bit_and a b k = rw bit_and-bitwise (
    bit-digits (λ b. 0) min (λ b j. omega (arith, bit-zero j)) (λ x y p q. omega arith) a a b k
      (omega arith))

pub bit-bit_or : (a b k : ℕ) → bit (bit_or a b) k ≡ max (bit a k) (bit b k)
bit-bit_or a b k =
    rw bit_or-bitwise
      (bit-digits (λ b. b) max (λ b j. omega arith) (λ x y p q. omega arith) a a b k (omega arith))

-- A word is its bits.
bit_ext_fuel : (n x y : ℕ) → x ≤ n → y ≤ n → ((k : ℕ) → bit x k ≡ bit y k) → x ≡ y
bit_ext_fuel zero x y hx hy e = omega arith
bit_ext_fuel (suc n) x y hx hy e =
    omega (arith, e 0, bit_ext_fuel n (x / 2) (y / 2) (omega arith) (omega arith) (λ k. e (suc k)))

pub bit_ext : (x y : ℕ) → ((k : ℕ) → bit x k ≡ bit y k) → x ≡ y
bit_ext x y e = bit_ext_fuel (x + y) x y (omega arith) (omega arith) e

pub bit-pow : (k j : ℕ) → bit (2 ^ k) j ≡ (if j == k then 1 else 0)
bit-pow zero zero = refl
bit-pow zero (suc j) = rw (bit-zero j) (ground arith)
bit-pow (suc k) zero = ground (arith, pow-suc 2 k)
bit-pow (suc k) (suc j) =
    let half : 2 ^ suc k / 2 ≡ 2 ^ k = omega (arith, pow-suc 2 k) in
    ap (λ w. bit w j) half ∙ ground (arith, bit-pow k j)

-- `w & (1 << k)` tells bit `k` of `w`.
pub test_mask : (w k : ℕ) → (bit_and w (2 ^ k) == 0) ≡ (bit w k == 0)
test_mask w k = ground (arith, bit_le_one w k, clear, hit)
  where
    clear : bit w k ≡ 0 → bit_and w (2 ^ k) ≡ 0
    clear e =
        bit_ext (bit_and w (2 ^ k)) 0
          λ j. ground (arith, bit-bit_and w (2 ^ k) j, bit-pow k j, bit-zero j, bit_le_one w j)

    hit : bit_and w (2 ^ k) ≡ 0 → bit w k ≡ 0
    hit e = ground (
      arith,
      ap (λ v. bit v k) e,
      bit-zero k,
      bit-bit_and w (2 ^ k) k,
      bit-pow k k,
      bit_le_one w k,
    )

-- the word `~(1 << k)` of 32 bits
abbrev pub mask_out : ℕ → ℕ
mask_out k = 2 ^ 32 - 1 - 2 ^ k

mask_out_table :
    passes (λ k. passes (λ j. bit (mask_out k) j == (if j == k then 0 else 1)) 32) 32 ≡ true
unfolding passes
mask_out_table = refl

bit-mask_out : (k j : ℕ) → k < 32 → j < 32 → bit (mask_out k) j ≡ (if j == k then 0 else 1)
bit-mask_out k j hk hj = (==_iff _ _).0 (passes_lem _ 32 j hj (passes_lem _ 32 k hk mask_out_table))

-- `w |= 1 << k` sets bit `k` and no other.
pub bit-set_mask : (w k j : ℕ) → bit (bit_or w (2 ^ k)) j ≡ (if j == k then 1 else bit w j)
bit-set_mask w k j = ground (arith, bit-bit_or w (2 ^ k) j, bit-pow k j, bit_le_one w j)

-- `w &= ~(1 << k)` clears bit `k` and no other.
pub bit-clear_mask :
    (w k j : ℕ) → k < 32 → j < 32 → bit (bit_and w (mask_out k)) j ≡ (if j == k then 0 else bit w j)
bit-clear_mask w k j hk hj =
    ground (arith, bit-bit_and w (mask_out k) j, bit-mask_out k j hk hj, bit_le_one w j)

-- `2 * y | 1`
pub bit_or-one : (y : ℕ) → bit_or (y * 2) 1 ≡ y * 2 + 1
bit_or-one y = bit_ext (bit_or (y * 2) 1) (y * 2 + 1) each
  where
    half : (y * 2 + 1) / 2 ≡ y
    half = omega arith

    half' : y * 2 / 2 ≡ y
    half' = omega arith

    each : (k : ℕ) → bit (bit_or (y * 2) 1) k ≡ bit (y * 2 + 1) k
    each zero = bit-bit_or (y * 2) 1 zero ∙ omega arith
    each (suc k) =
        bit-bit_or (y * 2) 1 (suc k)
        ∙ omega (arith, ap (λ w. bit w k) half, ap (λ w. bit w k) half', bit-zero k)

-- The low bits of a number do not see a high power of two that is added.
pub bit_add_high : (k d x : ℕ) → bit (x + 2 ^ suc (k + d)) k ≡ bit x k
bit_add_high zero d x = omega (arith, pow-suc 2 (0 + d))
bit_add_high (suc k) d x =
    let half : (x + 2 ^ suc (suc k + d)) / 2 ≡ x / 2 + 2 ^ suc (k + d) =
      omega (arith, pow-suc 2 (suc k + d), ap (λ (t : ℕ). 2 ^ t) (suc_add k d)) in
    ap (λ w. bit w k) half ∙ bit_add_high k d (x / 2)
  where
    suc_add : (a b : ℕ) → suc a + b ≡ suc (a + b)
    suc_add a b = omega arith

-- the number that the lowest `n` bits make
abbrev pub low : ℕ → ℕ → ℕ
low zero w = 0
low (suc n) w = w % 2 + 2 * low n (w / 2)

pub low_same : (n x y : ℕ) → ((k : ℕ) → k < n → bit x k ≡ bit y k) → low n x ≡ low n y
low_same zero x y e = refl
low_same (suc n) x y e =
    omega (arith, e 0 (omega arith), low_same n (x / 2) (y / 2) (λ k h. e (suc k) (omega arith)))

pub low_all : (n w : ℕ) → w < 2 ^ n → low n w ≡ w
low_all zero w h = omega arith
low_all (suc n) w h = omega (arith, low_all n (w / 2) (omega (arith, pow-suc 2 n)))
