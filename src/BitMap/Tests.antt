-- ===== src/BitMap/Tests.antt =====
-- The theorems on the bitmap at concrete maps.
use cs270hw.Base.{
  ℕ, ◌^◌, ◌-◌, ◌<◌, ◌≡◌, ◌↔◌, refl, false, some, [], ◌∷◌, replicate, length-replicate, arith,
  div_round_up,
}
use cs270hw.Base.Int.{ℤ, pos, minus_one}
use cs270hw.BitMap.{BitMap, bits_in_word, mark, test, new, find, num_clear}
use cs270hw.BitMap.Bits.{IsValid, is_set}
use cs270hw.BitMap.Laws.{new_lem, Found, find_lem}
use cs270hw.BitMap.Count.{find_fails_iff}

-- bits 0 and 2 of 4 are set
abbrev four_bits : BitMap
four_bits = record { num_bits = 4; num_words = 1; map = 5 ∷ [] }

four_bits-IsValid : IsValid four_bits
four_bits-IsValid = record { room = omega arith }

new_lem_example :
    (m : BitMap) × (new (λ k. replicate k (2 ^ 32 - 1)) 40 ≡ some m)
    × IsValid m
    × (m.num_bits ≡ 40)
    × (m.num_words ≡ div_round_up 40 bits_in_word)
    × ((j : ℕ) → j < 40 → is_set m j ≡ false)
new_lem_example = new_lem (λ k. replicate k (2 ^ 32 - 1)) 40 (λ k. length-replicate k (2 ^ 32 - 1))

find_lem_example : (r : ℤ × BitMap) × (find four_bits ≡ some r) × Found four_bits 0 r
find_lem_example = find_lem four_bits four_bits-IsValid

find_fails_iff_example :
    (r : ℤ × BitMap) × (find four_bits ≡ some r)
    × ((r.0 ≡ minus_one) ↔ (num_clear four_bits ≡ some 0))
find_fails_iff_example = find_fails_iff four_bits four_bits-IsValid

-- Find takes bit 1, and then two bits are set below bit 3.
find_run : find four_bits ≡ some (pos 1, record { num_bits = 4; num_words = 1; map = 7 ∷ [] })
unfolding find test mark
find_run = refl
