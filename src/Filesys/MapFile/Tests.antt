-- ===== src/Filesys/MapFile/Tests.antt =====
-- A map of 64 bits in a file of one sector.
use cs270hw.Base.{
  ℕ, zero, suc, ◌*◌, ◌^◌, ◌<◌, ◌≡◌, refl, Option, none, some, List, [], ◌∷◌, replicate,
  length-replicate, get_or, get_elem?, arith,
}
use cs270hw.Base.Int.{pos, minus_one}
use cs270hw.BitMap.{BitMap}
use cs270hw.Filesys.FileHeader.{FileHeader, sector_size}
use cs270hw.Filesys.OpenFile.{Disk}
use cs270hw.Filesys.OpenFile.Contents.{HasSectors, IsLaidOut}
use cs270hw.Filesys.OpenFile.Writing.{IsOutside}
use cs270hw.Filesys.MapFile.{bytes_of, fetch_from, write_back}
use cs270hw.Filesys.MapFile.RoundTrip.{HasWords, fetch_from-write_back}

abbrev map_header : FileHeader
map_header = record {
  num_bytes = 128;
  num_sectors = 1;
  direct_data_sectors = pos 7 ∷ minus_one ∷ minus_one ∷ minus_one ∷ [];
  pointer_block_sectors = [];
  indirect_data_sectors = [];
}

abbrev seven : ℕ → ℕ
seven k = 7

first_direct :
    (k : ℕ) → k * 128 < 128 → get_elem? map_header.direct_data_sectors k ≡ some (pos (seven k))
first_direct zero h = refl
first_direct (suc k) h = absurd (omega arith)

map_header-IsLaidOut : IsLaidOut map_header seven
map_header-IsLaidOut = record {
  small = omega arith;
  direct = first_direct;
  on_disk = λ k h. omega arith;
  distinct = λ j k hj hk e. omega arith;
}

abbrev empty_disk : Disk
empty_disk s = replicate sector_size 0

empty_disk-HasSectors : HasSectors empty_disk
empty_disk-HasSectors s = length-replicate {A = ℕ} sector_size 0

abbrev two_words : BitMap
two_words = record { num_bits = 64; num_words = 2; map = 5 ∷ 2 ^ 31 ∷ [] }

word_of_two : (i : ℕ) → get_or two_words.map i 0 < 2 ^ 32
word_of_two zero = omega arith
word_of_two (suc zero) = omega arith
word_of_two (suc (suc i)) = omega arith

two_words-HasWords : HasWords two_words
two_words-HasWords = record { size = refl; words = word_of_two }

bytes_run : bytes_of two_words.map ≡ 5 ∷ 0 ∷ 0 ∷ 0 ∷ 0 ∷ 0 ∷ 0 ∷ 128 ∷ []
unfolding bytes_of
bytes_run = refl

abbrev no_map : Disk → Option BitMap
no_map d = none

abbrev no_store : BitMap → Disk → Option Disk
no_store m d = none

abbrev zeros : ℕ → List ℕ
zeros n = replicate n 0

-- the map that a kernel makes before it fetches the words
abbrev new_map : BitMap
new_map = record { num_bits = 64; num_words = 2; map = 0 ∷ 0 ∷ [] }

fetch_from-write_back_example :
    (d' : Disk) × (write_back [] no_map no_store zeros map_header empty_disk two_words
      ≡ some (map_header, d'))
    × HasSectors d'
    × ((s : ℕ) → IsOutside map_header seven s → d' s ≡ empty_disk s)
    × (fetch_from map_header d' new_map ≡ some two_words)
fetch_from-write_back_example =
    fetch_from-write_back [] no_map no_store zeros (λ n. length-replicate n 0) map_header seven
      empty_disk two_words new_map map_header-IsLaidOut empty_disk-HasSectors two_words-HasWords
      (omega arith) (omega arith) refl refl
