-- ===== src/BitMap/Laws.antt =====
-- The constructor clears every bit; Find takes the first clear bit.
use cs270hw.Base.{
  ℕ, zero, suc, ◌+◌, ◌≤◌, ◌<◌, ◌≡◌, inl, inr, refl, ◌∙◌, true, false, none, some, List, arith,
  length, Bool-cases, div_round_up,
}
use cs270hw.Base.Int.{ℤ, pos, minus_one}
use cs270hw.BitMap.{
  BitMap, bits_in_word, checked, mark, clear, test, clear_loop, new, find_loop, find,
}
use cs270hw.BitMap.Bits.{IsValid, is_set, Changes, test_lem, mark_lem, clear_lem}

-- An index that fails the ASSERT on it stops Mark, Clear and Test.
pub out_of_range :
    (m : BitMap) (which : ℤ)
    → checked m which ≡ none
    → (mark m which ≡ none) × (clear m which ≡ none) × (test m which ≡ none)
unfolding mark clear test
out_of_range m which h = ground arith

-- The rounds of the constructor clear the bits from `i` on.
clear_loop_lem :
    (n i : ℕ) (m : BitMap)
    → IsValid m
    → i + n ≡ m.num_bits
    → ((j : ℕ) → j < i → is_set m j ≡ false)
    → (m' : BitMap) × (clear_loop n i m ≡ some m')
      × IsValid m'
      × (m'.num_bits ≡ m.num_bits)
      × (m'.num_words ≡ m.num_words)
      × ((j : ℕ) → j < m.num_bits → is_set m' j ≡ false)
unfolding clear_loop
clear_loop_lem zero i m v e h = (m, refl, v, refl, refl, λ j hj. h j (omega arith))
clear_loop_lem (suc n) i m v e h =
    let (m1, e1, c) = clear_lem m i v (omega arith) in
    let (m2, e2, v2, s2, w2, b2) =
      clear_loop_lem n (suc i) m1 c.valid (omega (arith, c.size))
        (λ j hj. ground (arith, c.bits j, h j)) in
    (m2, rw e1 e2, v2, s2 ∙ c.size, w2 ∙ c.words, λ j hj. b2 j (omega (arith, c.size)))

-- Whatever the allocated words hold, the constructor completes with a valid map of `nitems` bits, all of
-- them clear, in as many words as it takes.
pub new_lem :
    (fresh : ℕ → List ℕ) (nitems : ℕ)
    → ((k : ℕ) → length (fresh k) ≡ k)
    → (m : BitMap) × (new fresh nitems ≡ some m)
      × IsValid m
      × (m.num_bits ≡ nitems)
      × (m.num_words ≡ div_round_up nitems bits_in_word)
      × ((j : ℕ) → j < nitems → is_set m j ≡ false)
unfolding new
new_lem fresh nitems hf =
    clear_loop_lem nitems 0
      (record {
        num_bits = nitems;
        num_words = div_round_up nitems bits_in_word;
        map = fresh (div_round_up nitems bits_in_word);
      })
      (record { room = ground (arith, hf (div_round_up nitems 32)) }) (omega arith)
      (λ j hj. absurd (omega arith))

-- What `Find` may return: the first clear bit, now set, or -1 when there is none.
pub data Found (m : BitMap) (i : ℕ) : ℤ × BitMap → Type 0 where
  full : ((j : ℕ) → i ≤ j → j < m.num_bits → is_set m j ≡ true) → Found m i (minus_one, m)
  at :
      (k : ℕ) (m' : BitMap)
      → i ≤ k
      → k < m.num_bits
      → is_set m k ≡ false
      → ((j : ℕ) → i ≤ j → j < k → is_set m j ≡ true)
      → Changes m k true m'
      → Found m i (pos k, m')

Found-earlier :
    (m : BitMap) (i : ℕ) {r : ℤ × BitMap} → is_set m i ≡ true → Found m (suc i) r → Found m i r
Found-earlier m i s (full h) = full (λ j p q. ground (arith, h j))
Found-earlier m i s (at k m' p q c h g) = at k m' (omega arith) q c (λ j a b. ground (arith, h j)) g

find_loop_lem :
    (n i : ℕ) (m : BitMap)
    → IsValid m
    → i + n ≡ m.num_bits
    → (r : ℤ × BitMap) × (find_loop n i m ≡ some r) × Found m i r
unfolding find_loop
find_loop_lem zero i m v e = ((minus_one, m), refl, full (λ j p q. absurd (omega arith)))
find_loop_lem (suc n) i m v e = elim (Bool-cases (is_set m i)) [
  | inl s ↦
      let (r, er, f) = find_loop_lem n (suc i) m v (omega arith) in
      (r, ground (arith, test_lem m i v (omega arith)), Found-earlier m i s f)
  | inr c ↦
      let (m', em, ch) = mark_lem m i v (omega arith) in
      (
        (pos i, m'),
        ground (arith, test_lem m i v (omega arith)),
        at i m' (omega arith) (omega arith) c (λ j p q. absurd (omega arith)) ch,
      )
]

-- On a valid map Find completes: it returns the first clear bit and sets that bit and no other, or
-- returns -1 and leaves the map as it is, and then every bit is set.
pub find_lem : (m : BitMap) → IsValid m → (r : ℤ × BitMap) × (find m ≡ some r) × Found m 0 r
unfolding find
find_lem m v = find_loop_lem m.num_bits 0 m v (omega arith)
