-- ===== src/BitMap.antt =====
-- userprog/bitmap.h and bitmap.cc: an array of bits held in 32-bit words. An `int` argument is an
-- integer, so that the ASSERTs are met as the code meets them; `none` is a failed ASSERT or an
-- access outside the array of words. FetchFrom and WriteBack, which call the file system, are not here.
pub mod Bits
pub mod Laws
pub mod Count
pub mod Takes
mod Tests
use cs270hw.Base.{
  ℕ, zero, suc, ◌+◌, ◌-◌, ◌/◌, ◌%◌, ◌^◌, bit_and, bit_or, Bool, true, false, not, Option, none,
  some, List, ltb, ◌==◌, if◌then◌else◌, ◌>>=◌, get_elem?, set, div_round_up,
}
use cs270hw.Base.Int.{ℤ, pos, negsuc, minus_one}
use cs270hw.Base.Bits.{mask_out}

pub record BitMap : Type 0 where
  pub num_bits : ℕ
  pub num_words : ℕ
  pub map : List ℕ

abbrev pub bits_in_word : ℕ
bits_in_word = 32

-- `ASSERT(which >= 0 && which < numBits)`
pub checked : BitMap → ℤ → Option ℕ
checked m (negsuc n) = none
checked m (pos n) = if ltb n m.num_bits then some n else none

-- `map[i] = f(map[i])`
update_word : BitMap → ℕ → (ℕ → ℕ) → Option BitMap
update_word m i f = do w ← get_elem? m.map i; some (record m { map = set m.map i (f w) })

unfoldable pub mark : BitMap → ℤ → Option BitMap
unfolding checked update_word
mark m which = do
  n ← checked m which
  update_word m (n / bits_in_word) (λ w. bit_or w (2 ^ (n % bits_in_word)))

unfoldable pub clear : BitMap → ℤ → Option BitMap
unfolding checked update_word
clear m which = do
  n ← checked m which
  update_word m (n / bits_in_word) (λ w. bit_and w (mask_out (n % bits_in_word)))

unfoldable pub test : BitMap → ℤ → Option Bool
unfolding checked
test m which = do
  n ← checked m which
  w ← get_elem? m.map (n / bits_in_word)
  some (not (bit_and w (2 ^ (n % bits_in_word)) == 0))

-- the loop of the constructor, with `n` rounds left from `i`
clear_loop : ℕ → ℕ → BitMap → Option BitMap
clear_loop zero i m = some m
clear_loop (suc n) i m = do m' ← clear m (pos i); clear_loop n (suc i) m'

-- The constructor; `fresh` is what the allocated array holds before the bits are cleared.
unfoldable pub new : (fresh : ℕ → List ℕ) → ℕ → Option BitMap
unfolding clear_loop
new fresh nitems =
    let words : ℕ = div_round_up nitems bits_in_word in
    clear_loop nitems 0 (record { num_bits = nitems; num_words = words; map = fresh words })

-- the loop of `Find`
find_loop : ℕ → ℕ → BitMap → Option (ℤ × BitMap)
find_loop zero i m = some (minus_one, m)
find_loop (suc n) i m = do
  b ← test m (pos i)
  let later = find_loop n (suc i) m
  if b then later else (do m' ← mark m (pos i); some (pos i, m'))

unfoldable pub find : BitMap → Option (ℤ × BitMap)
unfolding find_loop
find m = find_loop m.num_bits 0 m

-- the loop of `NumClear`
count_loop : ℕ → ℕ → BitMap → ℕ → Option ℕ
count_loop zero i m count = some count
count_loop (suc n) i m count = do
  b ← test m (pos i)
  count_loop n (suc i) m (if b then count else count + 1)

unfoldable pub num_clear : BitMap → Option ℕ
unfolding count_loop
num_clear m = count_loop m.num_bits 0 m 0
