-- ===== src/Filesys/OpenFile/Tests.antt =====
-- A file of 200 bytes in the sectors 7 and 3 of a disk whose bytes are the numbers of their sectors.
use cs270hw.Base.{
  ℕ, zero, suc, ◌-◌, ◌*◌, ◌<◌, ◌≡◌, ◌⊎◌, refl, ◌&&◌, ◌==◌, Option, some, none, ◌>>=◌, List, [], ◌∷◌,
  ◌++◌, replicate, length-replicate, get_or, get_elem?, arith, ltb, leb, if◌then◌else◌,
}
use cs270hw.Base.Int.{pos, minus_one, ◌+ℤ◌}
use cs270hw.BitMap.{BitMap, num_clear, test}
use cs270hw.Filesys.FileHeader.{FileHeader, sector_size, byte_to_sector, extend_file, direct_loop}
use cs270hw.Filesys.OpenFile.{
  Disk, read, write, seek, read_at, write_at, read_sectors, write_bytes, read_into, write_sectors,
  write_across, extend,
}
use cs270hw.Filesys.OpenFile.Contents.{HasSectors, IsLaidOut, byte_at, file_bytes}
use cs270hw.Filesys.OpenFile.Reading.{read_at_lem}
use cs270hw.Filesys.OpenFile.Writing.{IsOutside}
use cs270hw.Filesys.OpenFile.RoundTrip.{write_at_inside, read-write}
use cs270hw.Filesys.OpenFile.Across.{write_at_across}

abbrev numbered : Disk
numbered s = replicate sector_size s

abbrev two_sectors : FileHeader
two_sectors = record {
  num_bytes = 200;
  num_sectors = 2;
  direct_data_sectors = pos 7 ∷ pos 3 ∷ minus_one ∷ minus_one ∷ [];
  pointer_block_sectors = [];
  indirect_data_sectors = [];
}

abbrev places : ℕ → ℕ
places k = if k == 0 then 7 else 3

numbered-HasSectors : HasSectors numbered
numbered-HasSectors s = length-replicate sector_size s

direct_places :
    (k : ℕ) → k * 128 < 200 → get_elem? two_sectors.direct_data_sectors k ≡ some (pos (places k))
direct_places zero h = refl
direct_places (suc zero) h = refl
direct_places (suc (suc k)) h = absurd (omega arith)

on_disk_places : (k : ℕ) → places k < 1024
on_disk_places k = ground arith

distinct_places : (j k : ℕ) → j * 128 < 200 → k * 128 < 200 → places j ≡ places k → j ≡ k
distinct_places j k hj hk e = ground (arith, e, hj, hk)

two_sectors-IsLaidOut : IsLaidOut two_sectors places
two_sectors-IsLaidOut = record {
  small = omega arith;
  direct = direct_places;
  on_disk = λ k h. on_disk_places k;
  distinct = distinct_places;
}

read_at_lem_example : read_at two_sectors numbered 90 150 ≡ some (file_bytes places numbered 50 150)
read_at_lem_example =
    read_at_lem two_sectors places numbered two_sectors-IsLaidOut numbered-HasSectors 90 150
      (omega arith)

abbrev no_map : Disk → Option BitMap
no_map d = none

abbrev no_store : BitMap → Disk → Option Disk
no_store m d = none

abbrev zeros : ℕ → List ℕ
zeros n = replicate n 0

abbrev word : List ℕ
word = 65 ∷ 66 ∷ 67 ∷ 68 ∷ []

write_at_inside_example :
    (d' : Disk) × (write_at [] no_map no_store zeros two_sectors numbered word 4 126
      ≡ some (4, two_sectors, d'))
    × HasSectors d'
    × ((o : ℕ)
        → o < 200
        → byte_at places d' o
          ≡ (if leb 126 o && ltb o 130 then get_or word (o - 126) 0 else byte_at places numbered o))
    × ((s : ℕ) → IsOutside two_sectors places s → d' s ≡ numbered s)
write_at_inside_example =
    write_at_inside [] no_map no_store zeros (λ n. length-replicate n 0) two_sectors places numbered
      two_sectors-IsLaidOut numbered-HasSectors word 4 126 (omega arith) (omega arith) (omega arith)

read-write_example :
    (do
      (_, f1, d1) ←
          write [] no_map no_store zeros
            (record { hdr = two_sectors; seek_position = 126 })
            numbered
            word
            4
      read (seek 126 f1) d1 4)
    ≡ some (word, record { hdr = two_sectors; seek_position = 130 })
read-write_example =
    read-write [] no_map no_store zeros (λ n. length-replicate n 0) two_sectors places numbered
      two_sectors-IsLaidOut numbered-HasSectors word 4 126 (omega arith) (omega arith) (omega arith)

-- 20 bytes from byte 190 on: the file grows to 210 bytes, and 10 are written.
abbrev small_map : Disk → Option BitMap
small_map d = some (record { num_bits = 4; num_words = 1; map = 5 ∷ [] })

abbrev same_store : BitMap → Disk → Option Disk
same_store m d = some d

abbrev longer : List ℕ
longer = replicate 20 9

abbrev grown : FileHeader
grown = record two_sectors { num_bytes = 210 }

abbrev grown_disk : Disk
grown_disk s =
    if s == 3
    then replicate 62 3 ++ (replicate 10 9 ++ (replicate 10 3 ++ replicate 46 0))
    else numbered s

across_run :
    write_at [] small_map same_store zeros two_sectors numbered longer 20 190
    ≡ some (10, grown, grown_disk)
unfolding write_at write_across extend write_bytes read_into read_at read_sectors write_sectors
    byte_to_sector extend_file direct_loop num_clear test ◌+ℤ◌
across_run = refl

write_at_across_example : ◌⊎◌ (◌≡◌ {A = ℕ} 10 10) (◌≡◌ {A = ℕ} 10 0)
write_at_across_example =
    write_at_across [] small_map same_store zeros two_sectors numbered longer 20 190 (omega arith)
      (omega arith) (omega arith) across_run
