-- ===== src/Filesys/FileHeader.antt =====
-- filesys/filehdr.h and filehdr.cc, as compiled with FILESYS: the i-node with 4 direct sectors and
-- up to 13 indirect blocks of 31 sectors. A header and its blocks start with whatever the memory
-- held, so the arrays are arguments. The sizes are `int`s that are not negative; an expression with
-- PointerSectors in it is computed in 32-bit unsigned arithmetic. FetchFrom, WriteBack and Print
-- are not modelled. `none` is a failed ASSERT or an access outside an array.
pub mod Sectors
pub mod Blocks
pub mod Allocation
pub mod Release
pub mod Lookup
pub mod Extension
mod Tests
use cs270hw.Base.{
  ℕ, zero, suc, ◌+◌, ◌-◌, ◌*◌, ◌/◌, ◌%◌, ◌^◌, Bool, true, false, Option, none, some, List, ltb, leb,
  ◌==◌, if◌then◌else◌, ◌>>=◌, ◌>>◌, get_elem?, store, div_round_up, min,
}
use cs270hw.Base.Int.{ℤ}
use cs270hw.BitMap.{BitMap, find, num_clear}
use cs270hw.BitMap.Takes.{free_one}

abbrev pub sector_size : ℕ
sector_size = 128

-- ((SectorSize - sizeof(int)) / sizeof(int))
abbrev pub pointer_sectors : ℕ
pointer_sectors = (sector_size - 4) / 4

-- ((SectorSize - 2 * sizeof(int) - 4 * sizeof(int)) / (sizeof(IndirectPointerBlock*) + sizeof(int)))
abbrev pub num_in_direct : ℕ
num_in_direct = (sector_size - 2 * 4 - 4 * 4) / (4 + 4)

-- `IndirectPointerBlock`
pub record Block : Type 0 where
  pub num_sectors : ℕ
  pub data_sectors : List ℤ

pub record FileHeader : Type 0 where
  pub num_bytes : ℕ
  pub num_sectors : ℕ
  pub direct_data_sectors : List ℤ
  pub pointer_block_sectors : List ℤ
  pub indirect_data_sectors : List (Option Block)

pub put_sector : Block → ℤ → Option Block
put_sector b s = do
  sectors ← store b.data_sectors b.num_sectors s
  some (record { num_sectors = b.num_sectors + 1; data_sectors = sectors })

-- `((numSectors - 4) + PointerSectors - 1)/PointerSectors`
pub indirect_blocks : ℕ → ℕ
indirect_blocks n = (n + 2 ^ 32 - 4 + pointer_sectors - 1) % 2 ^ 32 / pointer_sectors

-- The `sectors` of the round `j` of the loop over the indirect blocks. The loop that it bounds makes
-- no round where `(numSectors - 4) - PointerSectors*j` is negative.
pub block_sectors : ℕ → ℕ → ℕ
block_sectors n j =
    if j == (n + 2 ^ 32 - 4 + pointer_sectors - 1 - 1) % 2 ^ 32
    then n - 4 - pointer_sectors * j
    else pointer_sectors

-- `for (i ...) directDataSectors[i] = freeMap->Find();`, with `n` rounds left
unfoldable pub direct_loop : ℕ → ℕ → List ℤ → BitMap → Option (List ℤ × BitMap)
direct_loop zero i sectors m = some (sectors, m)
direct_loop (suc n) i sectors m = do
  (s, m1) ← find m
  sectors1 ← store sectors i s
  direct_loop n (suc i) sectors1 m1

-- `for (k ...) block->PutSector(freeMap->Find());`
pub fill : ℕ → Block → BitMap → Option (Block × BitMap)
fill zero b m = some (b, m)
fill (suc n) b m = do (s, m1) ← find m; b1 ← put_sector b s; fill n b1 m1

-- The arrays as they are when they are allocated.
module _ (blank : List ℤ) where
  pub new_block : Block
  new_block = record { num_sectors = 0; data_sectors = blank }

  pub indirect_loop : ℕ → ℕ → FileHeader → BitMap → Option (FileHeader × BitMap)
  indirect_loop zero j h m = some (h, m)
  indirect_loop (suc n) j h m = do
    (s, m1) ← find m
    pointers ← store h.pointer_block_sectors j s
    (b, m2) ← fill (block_sectors h.num_sectors j) new_block m1
    blocks ← store h.indirect_data_sectors j (some b)
    indirect_loop n (suc j)
        (record h { pointer_block_sectors = pointers; indirect_data_sectors = blocks }) m2

  -- `FileHeader::Allocate`
  pub allocate : FileHeader → BitMap → ℕ → Option (Bool × FileHeader × BitMap)
  allocate h m file_size = do
    let data_sectors = div_round_up file_size sector_size
    let total = data_sectors + indirect_blocks data_sectors
    let h1 = record h { num_bytes = file_size; num_sectors = total }
    clear ← num_clear m
    if ltb clear total then some (false, h1, m) else do
      let directs = if ltb 4 total then 4 else total
      (sectors, m1) ← direct_loop directs 0 h1.direct_data_sectors m
      (h2, m2) ←
          indirect_loop (indirect_blocks total) 0 (record h1 { direct_data_sectors = sectors }) m1
      some (true, h2, m2)

  -- the loop of `ExtendFile` over the new blocks: the last one gets what is left of `n`
  pub extend_loop : ℕ → ℕ → ℕ → FileHeader → BitMap → Option (ℕ × FileHeader × BitMap)
  extend_loop zero j n h m = some (n, h, m)
  extend_loop (suc rounds) j n h m = do
    let count = if rounds == 0 then n else pointer_sectors
    (b, m1) ← fill count new_block m
    blocks ← store h.indirect_data_sectors j (some b)
    extend_loop rounds (suc j) (n - count) (record h { indirect_data_sectors = blocks }) m1

  -- `ExtendFile` from `existing_blocks` on, where `numSectors` is 4 at least
  pub extend_blocks : FileHeader → BitMap → ℕ → Option (Bool × FileHeader × BitMap)
  extend_blocks h m n = do
    let existing = div_round_up (h.num_sectors - 4) pointer_sectors
    let room = existing * pointer_sectors - (h.num_sectors - 4)
    let space = if ltb n room then n else room
    let left = n - space
    if left == 0 then some (true, h, m) else do
      (left', h', m') ← extend_loop (div_round_up left pointer_sectors) existing left h m
      some (left' == 0, h', m')

  -- `FileHeader::ExtendFile`, for a number of sectors that is not negative
  unfoldable pub extend_file : FileHeader → BitMap → ℕ → ℕ → Option (Bool × FileHeader × BitMap)
  extend_file h m n bytes = do
    clear ← num_clear m
    if ltb clear n then some (false, h, m) else do
      let top = if ltb h.num_sectors 4 then min (n + h.num_sectors) 4 else h.num_sectors
      let added = top - h.num_sectors
      (sectors, m1) ← direct_loop added h.num_sectors h.direct_data_sectors m
      let h1 = record h { num_bytes = bytes; num_sectors = top; direct_data_sectors = sectors }
      if n - added == 0 then some (true, h1, m1) else extend_blocks h1 m1 (n - added)

-- `ASSERT(freeMap->Test(s[i])); freeMap->Clear(s[i]);` for `n` entries from `i` on
pub free_loop : ℕ → ℕ → List ℤ → BitMap → Option BitMap
free_loop zero i sectors m = some m
free_loop (suc n) i sectors m = do
  s ← get_elem? sectors i
  m1 ← free_one m s
  free_loop n (suc i) sectors m1

-- `IndirectPointerBlock::Deallocate`; it ends without a `return`, and its caller uses no value
pub block_deallocate : Block → BitMap → Option BitMap
block_deallocate b m = free_loop b.num_sectors 0 b.data_sectors m

pub free_blocks : ℕ → ℕ → FileHeader → BitMap → Option BitMap
free_blocks zero j h m = some m
free_blocks (suc n) j h m = do
  s ← get_elem? h.pointer_block_sectors j
  m1 ← free_one m s
  found ← get_elem? h.indirect_data_sectors j
  b ← found
  m2 ← block_deallocate b m1
  free_blocks n (suc j) h m2

-- `FileHeader::Deallocate`
pub deallocate : FileHeader → BitMap → Option BitMap
deallocate h m = do
  let directs = if ltb 4 h.num_sectors then 4 else h.num_sectors
  m1 ← free_loop directs 0 h.direct_data_sectors m
  free_blocks (indirect_blocks h.num_sectors) 0 h m1

-- What a call of `ByteToSector` gives its caller: a sector, or nothing, where the function comes to
-- its end without a `return`.
pub data Answer : Type 0 where
  sector : ℤ → Answer
  no_value : Answer

-- `IndirectPointerBlock::ByteToSector`
pub block_byte_to_sector : Block → ℕ → Option ℤ
block_byte_to_sector b n = get_elem? b.data_sectors (n / sector_size)

-- the second branch of `ByteToSector`, whose value is dropped
pub indirect_answer : FileHeader → ℕ → Option Answer
indirect_answer h offset = do
  let j = (offset / sector_size - 4) / sector_size
  found ← get_elem? h.indirect_data_sectors j
  b ← found
  d ← block_byte_to_sector b (offset - 4 * sector_size - j * sector_size)
  some no_value

-- `FileHeader::ByteToSector`
unfoldable pub byte_to_sector : FileHeader → ℕ → Option Answer
byte_to_sector h offset =
    if ltb (offset / sector_size) 4
    then (do d ← get_elem? h.direct_data_sectors (offset / sector_size); some (sector d))
    else indirect_answer h offset

-- `FileHeader::FileLength`
abbrev pub file_length : FileHeader → ℕ
file_length h = h.num_bytes
