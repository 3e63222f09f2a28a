-- ===== src/BitMap/Count.antt =====
-- NumClear counts the clear bits, and what Mark, Clear and Find change of that number.
use cs270hw.Base.{
  ℕ, zero, suc, ◌+◌, ◌≤◌, ◌<◌, ◌≡◌, ◌⊎◌, ◌↔◌, inl, inr, refl, ◌∙◌, ap, Bool, true, false, some,
  arith, ◌==◌, if◌then◌else◌, ℕ_discrete,
}
use cs270hw.Base.Int.{ℤ, pos, minus_one}
use cs270hw.BitMap.{BitMap, count_loop, num_clear, find}
use cs270hw.BitMap.Bits.{IsValid, is_set, Changes, test_lem}
use cs270hw.BitMap.Laws.{Found, full, at, find_lem}

-- how many of the `n` bits from `i` on are clear
abbrev pub clear_from : (ℕ → Bool) → ℕ → ℕ → ℕ
clear_from b zero i = 0
clear_from b (suc n) i = (if b i then 0 else 1) + clear_from b n (suc i)

abbrev pub free_bits : BitMap → ℕ
free_bits m = clear_from (is_set m) m.num_bits 0

count_loop_lem :
    (n i : ℕ) (m : BitMap) (count : ℕ)
    → IsValid m
    → i + n ≡ m.num_bits
    → count_loop n i m count ≡ some (count + clear_from (is_set m) n i)
unfolding count_loop
count_loop_lem zero i m count v e = ap some (omega arith)
count_loop_lem (suc n) i m count v e = rw (test_lem m i v (omega arith)) (
    count_loop_lem n (suc i) m (if is_set m i then count else count + 1) v (omega arith)
    ∙ ground arith)

-- On a valid map NumClear completes with the number of clear bits.
pub num_clear_lem : (m : BitMap) → IsValid m → num_clear m ≡ some (free_bits m)
unfolding num_clear
num_clear_lem m v = count_loop_lem m.num_bits 0 m 0 v (omega arith) ∙ ap some (omega arith)

-- A change of bit `k` of a range adds or takes one.
clear_from_same :
    (b c : ℕ → Bool) (n i : ℕ)
    → ((j : ℕ) → i ≤ j → j < i + n → c j ≡ b j)
    → clear_from c n i ≡ clear_from b n i
clear_from_same b c zero i h = refl
clear_from_same b c (suc n) i h = rw (
  h i (omega arith) (omega arith),
  clear_from_same b c n (suc i) (λ j p q. h j (omega arith) (omega arith)),
)

pub clear_from_set :
    (b c : ℕ → Bool) (n i k : ℕ)
    → i ≤ k
    → k < i + n
    → b k ≡ false
    → ((j : ℕ) → c j ≡ (if j == k then true else b j))
    → suc (clear_from c n i) ≡ clear_from b n i
clear_from_set b c zero i k p q e h = absurd (omega arith)
clear_from_set b c (suc n) i k p q e h = elim (ℕ_discrete i k) [
  | yes s ↦
      let rest = clear_from_same b c n (suc i) (λ j p q. ground (arith, h j)) in
      ground (arith, h i, rest)
  | no s ↦ ground (arith, h i, clear_from_set b c n (suc i) k (omega arith) (omega arith) e h)
]

clear_from_full :
    (b : ℕ → Bool) (n i : ℕ) → ((j : ℕ) → i ≤ j → j < i + n → b j ≡ true) → clear_from b n i ≡ 0
clear_from_full b zero i h = refl
clear_from_full b (suc n) i h =
    rw (h i (omega arith) (omega arith))
      (omega (arith, clear_from_full b n (suc i) (λ j p q. h j (omega arith) (omega arith))))

pub clear_from-Changes :
    (m m' : BitMap) (k : ℕ)
    → k < m.num_bits
    → is_set m k ≡ false
    → Changes m k true m'
    → suc (free_bits m') ≡ free_bits m
clear_from-Changes m m' k h e c =
    simp c.size
      (clear_from_set (is_set m) (is_set m') m.num_bits 0 k (omega arith) (omega arith) e c.bits)

-- What `Find` takes from the number of clear bits: nothing when it is 0, else one.
pub Found-free_bits :
    (m : BitMap) {r : ℤ × BitMap}
    → Found m 0 r
    → ((free_bits m ≡ 0) × (r.0 ≡ minus_one) × (r.1 ≡ m))
      ⊎ ((k : ℕ) × (r.0 ≡ pos k)
          × (k < m.num_bits)
          × (is_set m k ≡ false)
          × Changes m k true r.1
          × (suc (free_bits r.1) ≡ free_bits m))
Found-free_bits m (full h) =
    inl (clear_from_full (is_set m) m.num_bits 0 (λ j p q. h j p (omega arith)), refl, refl)
Found-free_bits m (at k m' p q c h g) = inr (k, refl, q, c, g, clear_from-Changes m m' k q c g)

-- On a valid map Find completes, and returns -1 exactly when NumClear returns 0.
pub find_fails_iff :
    (m : BitMap)
    → IsValid m
    → (r : ℤ × BitMap) × (find m ≡ some r) × ((r.0 ≡ minus_one) ↔ (num_clear m ≡ some 0))
find_fails_iff m v =
    let (r, e, f) = find_lem m v in
    (
      r,
      e,
      (
        ground (arith, Found-free_bits m f, num_clear_lem m v),
        ground (arith, Found-free_bits m f, num_clear_lem m v),
      ),
    )
