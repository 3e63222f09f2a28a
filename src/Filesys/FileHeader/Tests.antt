-- ===== src/Filesys/FileHeader/Tests.antt =====
-- The theorems on file headers at concrete headers and maps.
use cs270hw.Base.{
  ℕ, ◌+◌, ◌*◌, ◌<◌, ◌≡◌, refl, true, none, some, List, [], ◌∷◌, replicate, arith, map, get_or, ltb,
  if◌then◌else◌, max, min,
}
use cs270hw.Base.Int.{ℤ, pos, minus_one}
use cs270hw.BitMap.{BitMap, find, test, mark, num_clear}
use cs270hw.BitMap.Bits.{IsValid, is_set}
use cs270hw.BitMap.Count.{free_bits}
use cs270hw.BitMap.Takes.{Takes}
use cs270hw.Filesys.FileHeader.{
  extend_blocks, extend_loop, fill, direct_loop, new_block, put_sector, FileHeader, allocate,
  deallocate, extend_file, byte_to_sector, sector, no_value, Block, indirect_blocks,
}
use cs270hw.Filesys.FileHeader.Lookup.{byte_to_sector-blocks}
use cs270hw.Filesys.FileHeader.Sectors.{entries}
use cs270hw.Filesys.FileHeader.Allocation.{HasArrays, sectors_taken, sectors_of}
use cs270hw.Filesys.FileHeader.Release.{deallocate-allocate, allocate_overcommits}
use cs270hw.Filesys.FileHeader.Extension.{extend_file_direct, extend_file-num_sectors}

abbrev blank : List ℤ
blank = replicate 31 (pos 0)

abbrev empty_header : FileHeader
empty_header = record {
  num_bytes = 0;
  num_sectors = 0;
  direct_data_sectors = replicate 4 (pos 0);
  pointer_block_sectors = replicate 13 (pos 0);
  indirect_data_sectors = replicate 13 none;
}

empty_header-HasArrays : HasArrays blank empty_header
empty_header-HasArrays = record { block = refl; direct = refl; pointers = refl; indirect = refl }

-- `n` bits, all clear
abbrev clear_map : ℕ → BitMap
clear_map words = record { num_bits = 32 * words; num_words = words; map = replicate words 0 }

one_word-IsValid : IsValid (clear_map 1)
one_word-IsValid = record { room = omega arith }

two_words-IsValid : IsValid (clear_map 2)
two_words-IsValid = record { room = omega arith }

deallocate-allocate_example :
    (h' : FileHeader) × (m' : BitMap) × (m'' : BitMap) × (allocate blank empty_header
        (clear_map 2)
        700
      ≡ some (true, h', m'))
    × (deallocate h' m' ≡ some m'')
    × (free_bits (clear_map 2) ≡ sectors_taken 700 + free_bits m')
    × (m''.num_bits ≡ 64)
    × ((j : ℕ) → is_set m'' j ≡ is_set (clear_map 2) j)
unfolding is_set indirect_blocks
deallocate-allocate_example =
    deallocate-allocate blank empty_header (clear_map 2) 700 two_words-IsValid
      empty_header-HasArrays (omega arith) (omega arith) (omega arith)

allocate_overcommits_example :
    (h' : FileHeader) × (m' : BitMap) × (allocate blank empty_header (clear_map 1) 700
      ≡ some (true, h', m'))
    × (¬ ((ks : List ℕ) × Takes (clear_map 1) ks m' × (sectors_of h' ≡ map pos ks)))
unfolding is_set indirect_blocks
allocate_overcommits_example =
    allocate_overcommits blank empty_header (clear_map 1) 700 one_word-IsValid
      empty_header-HasArrays (omega arith) (omega arith) (omega arith) (omega arith)

extend_file_direct_example :
    (h' : FileHeader) × (m' : BitMap) × (ks : List ℕ) × (extend_file blank empty_header
        (clear_map 1)
        2
        200
      ≡ some (true, h', m'))
    × (h'.num_bytes ≡ 200)
    × (h'.num_sectors ≡ 2)
    × Takes (clear_map 1) ks m'
    × (entries 2 0 h'.direct_data_sectors ≡ map pos ks)
    × ((j : ℕ)
        → j < 0
        → get_or h'.direct_data_sectors j minus_one
          ≡ get_or empty_header.direct_data_sectors j minus_one)
unfolding is_set indirect_blocks
extend_file_direct_example =
    extend_file_direct blank empty_header (clear_map 1) 2 200 one_word-IsValid refl (omega arith)
      (omega arith) (omega arith)

-- a header with five sectors in its count, of a file whose first block is there, and one more sector
abbrev grown : FileHeader
grown = record empty_header {
  num_bytes = 650;
  num_sectors = 4;
  direct_data_sectors = pos 0 ∷ pos 1 ∷ pos 2 ∷ pos 3 ∷ [];
  indirect_data_sectors =
      some (record { num_sectors = 1; data_sectors = pos 4 ∷ replicate 30 (pos 0) })
      ∷ replicate 12 none;
}

grow_run :
    extend_file blank empty_header (clear_map 1) 5 650
    ≡ some (true, grown, record (clear_map 1) { map = 31 ∷ [] })
unfolding extend_file extend_blocks extend_loop fill direct_loop new_block put_sector find test mark
    num_clear
grow_run = refl

extend_file-num_sectors_example : (grown.num_bytes ≡ 650) × (grown.num_sectors ≡ max 0 (min 5 4))
extend_file-num_sectors_example =
    extend_file-num_sectors blank empty_header grown (clear_map 1)
      (record (clear_map 1) { map = 31 ∷ [] }) 5 650 grow_run

-- 31 sectors in the first indirect block
abbrev first_block : Block
first_block = record { num_sectors = 31; data_sectors = replicate 31 (pos 9) }

abbrev with_block : FileHeader
with_block = record empty_header {
  num_bytes = 600;
  num_sectors = 5;
  indirect_data_sectors = some first_block ∷ replicate 12 none;
}

byte_to_sector-blocks_example : byte_to_sector with_block 600 ≡ (
    if ltb 600 512
    then some (sector (get_or with_block.direct_data_sectors 4 minus_one))
    else if ltb 600 4480
    then some no_value
    else none)
byte_to_sector-blocks_example =
    byte_to_sector-blocks with_block first_block 600 refl refl refl (omega arith)
