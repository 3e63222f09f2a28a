-- ===== src/BitMap/Bits.antt =====
-- The bitmap seen as its bits: what Mark, Clear and Test do to them.
use cs270hw.Base.{
  ℕ, ◌*◌, ◌/◌, ◌%◌, ◌^◌, ◌≤◌, ◌<◌, ◌≡◌, refl, Bool, true, false, not, some, arith, ◌==◌,
  if◌then◌else◌, length, set, get_or, length-set, get_elem?-get_or, get_or-set, bit_or, bit_and,
}
use cs270hw.Base.Int.{pos}
use cs270hw.Base.Bits.{bit, test_mask, bit-set_mask, bit-clear_mask, mask_out}
use cs270hw.BitMap.{BitMap, bits_in_word, mark, clear, test}

-- There is a word for each bit.
pub record IsValid (m : BitMap) : Type 0 where
  pub room : m.num_bits ≤ bits_in_word * length m.map

-- bit `j` of the map
unfoldable pub is_set : BitMap → ℕ → Bool
is_set m j = not (bit (get_or m.map (j / bits_in_word) 0) (j % bits_in_word) == 0)

-- `m'` is `m` with bit `n` changed to `b`, and no other.
pub record Changes (m : BitMap) (n : ℕ) (b : Bool) (m' : BitMap) : Type 0 where
  pub valid : IsValid m'
  pub size : m'.num_bits ≡ m.num_bits
  pub words : m'.num_words ≡ m.num_words
  pub bits : (j : ℕ) → is_set m' j ≡ (if j == n then b else is_set m j)

in_word : (m : BitMap) (n : ℕ) → IsValid m → n < m.num_bits → n / bits_in_word < length m.map
in_word m n v h = omega arith

pub test_lem :
    (m : BitMap) (n : ℕ) → IsValid m → n < m.num_bits → test m (pos n) ≡ some (is_set m n)
unfolding test is_set
test_lem m n v h = ground (
  arith,
  get_elem?-get_or m.map (n / 32) 0,
  in_word m n v h,
  test_mask (get_or m.map (n / 32) 0) (n % 32),
)

-- `m` with word `n / 32` replaced
with_word : BitMap → ℕ → ℕ → BitMap
with_word m n w = record m { map = set m.map (n / bits_in_word) w }

with_word-Changes :
    (m : BitMap) (n w : ℕ) (b : Bool)
    → IsValid m
    → n < m.num_bits
    → ((j : ℕ)
        → j < 32
        → (bit w j == 0) ≡ (if j == n % 32 then not b else bit (get_or m.map (n / 32) 0) j == 0))
    → Changes m n b (with_word m n w)
unfolding with_word is_set
with_word-Changes m n w b v h e = record {
  valid = record { room = omega (arith, length-set m.map (n / 32) w) };
  size = refl;
  words = refl;
  bits = λ j. ground (arith, get_or-set m.map (n / 32) (j / 32) w 0 (in_word m n v h), e (j % 32));
}

pub mark_lem :
    (m : BitMap) (n : ℕ)
    → IsValid m
    → n < m.num_bits
    → (m' : BitMap) × (mark m (pos n) ≡ some m') × Changes m n true m'
unfolding mark with_word
mark_lem m n v h =
    let old : ℕ = get_or m.map (n / 32) 0 in
    let w : ℕ = bit_or old (2 ^ (n % 32)) in
    (
      with_word m n w,
      ground (arith, get_elem?-get_or m.map (n / 32) 0, in_word m n v h),
      with_word-Changes m n w true v h (λ j hj. ground (arith, bit-set_mask old (n % 32) j)),
    )

pub clear_lem :
    (m : BitMap) (n : ℕ)
    → IsValid m
    → n < m.num_bits
    → (m' : BitMap) × (clear m (pos n) ≡ some m') × Changes m n false m'
unfolding clear with_word
clear_lem m n v h =
    let old : ℕ = get_or m.map (n / 32) 0 in
    let w : ℕ = bit_and old (mask_out (n % 32)) in
    (
      with_word m n w,
      ground (arith, get_elem?-get_or m.map (n / 32) 0, in_word m n v h),
      with_word-Changes m n w false v h
          (λ j hj. ground (arith, bit-clear_mask old (n % 32) j (omega arith) hj)),
    )
