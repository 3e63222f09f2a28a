-- ===== src/Filesys/OpenFile.antt =====
-- filesys/openfile.cc, as compiled with FILESYS, on the sectors of machine/disk.cc. A transfer to or
-- from the disk is one step, as SynchDisk makes it. Positions and lengths are `int`s that are not
-- negative; the sum of a position and a request wraps around, the sums for the number of sectors of a
-- file stay inside an `int`. `fresh n` is what `new char[n]` holds. `none` is a failed
-- ASSERT, an access outside an array, or the use of a value that a function did not return.
pub mod Contents
pub mod Reading
pub mod Buffers
pub mod Writing
pub mod InPlace
pub mod RoundTrip
pub mod Across
mod Tests
use cs270hw.Base.{
  ℕ, zero, suc, ◌+◌, ◌-◌, ◌*◌, ◌/◌, ◌%◌, ◌^◌, Bool, true, false, ◌&&◌, ◌||◌, not, Option, none,
  some, ◌>>=◌, List, [], ◌∷◌, ◌++◌, ltb, leb, ◌==◌, if◌then◌else◌, length, slice, take, drop,
  div_round_up,
}
use cs270hw.Base.Int.{ℤ, pos, negsuc, sub_ℕ, ltb_ℤ, ◌+ℤ◌, ◌-ℤ◌}
use cs270hw.BitMap.{BitMap}
use cs270hw.Filesys.FileHeader.{
  FileHeader, Answer, sector, no_value, byte_to_sector, file_length, extend_file, sector_size,
}

-- the bytes of each sector
abbrev pub Disk : Type 0
Disk = ℕ → List ℕ

-- `NumSectors`
abbrev pub num_sectors : ℕ
num_sectors = 32 * 32

-- the transfer of `Disk::ReadRequest`
abbrev pub read_request : Disk → ℤ → Option (List ℕ)
read_request d (pos s) = if ltb s num_sectors then some (d s) else none
read_request d (negsuc s) = none

-- the transfer of `Disk::WriteRequest`
abbrev pub write_request : Disk → ℤ → List ℕ → Option Disk
write_request d (pos s) bytes =
    if ltb s num_sectors then some (λ q. if q == s then bytes else d q) else none
write_request d (negsuc s) bytes = none

-- what ByteToSector returned
abbrev pub returned : Answer → Option ℤ
returned (sector s) = some s
returned no_value = none

-- `OpenFile`
pub record OpenFile : Type 0 where
  pub hdr : FileHeader
  pub seek_position : ℕ

-- `OpenFile::Seek` and `OpenFile::Length`
abbrev pub seek : ℕ → OpenFile → OpenFile
seek position f = record f { seek_position = position }

abbrev pub file_size : OpenFile → ℕ
file_size f = file_length f.hdr

-- `for (i = firstSector; i <= lastSector; i++) synchDisk->ReadSector(...)`, with `n` rounds left
pub read_sectors : FileHeader → Disk → ℕ → ℕ → Option (List ℕ)
read_sectors h d zero i = some []
read_sectors h d (suc n) i = do
  answer ← byte_to_sector h (i * sector_size)
  s ← returned answer
  bytes ← read_request d s
  others ← read_sectors h d n (suc i)
  some (bytes ++ others)

-- the number of sectors from the one of `position` to the one of the last of `n` bytes
abbrev pub sector_count : ℕ → ℕ → ℕ
sector_count n position = 1 + (position + n - 1) / sector_size - position / sector_size

-- `(position + numBytes) > fileLength`, where the sum is an `int`
abbrev pub runs_past : ℕ → ℕ → ℕ → Bool
runs_past len n position = let sum = (position + n) % 2 ^ 32 in ltb sum (2 ^ 31) && ltb len sum

-- `numBytes` cut at the end of the file. A request with a sum that overflows is not cut, and then the
-- code asks for a buffer of negative size, where the sectors of the model run out.
abbrev pub cut : ℕ → ℕ → ℕ → ℕ
cut len n position = if runs_past len n position then len - position else n

-- `OpenFile::ReadAt`: the bytes that it copies; their number is what it returns
pub read_at : FileHeader → Disk → ℕ → ℕ → Option (List ℕ)
read_at h d num_bytes position =
    if num_bytes == 0 || leb (file_length h) position then some [] else do
      let n = cut (file_length h) num_bytes position
      buf ← read_sectors h d (sector_count n position) (position / sector_size)
      some (slice n (position - position / sector_size * sector_size) buf 0)

-- `OpenFile::Read`
pub read : OpenFile → Disk → ℕ → Option (List ℕ × OpenFile)
read f d num_bytes = do
  bytes ← read_at f.hdr d num_bytes f.seek_position
  some (bytes, seek (f.seek_position + length bytes) f)

-- bcopy of `src` to `dst + i`; `none` past the end of the array
abbrev pub blit : List ℕ → ℕ → List ℕ → Option (List ℕ)
blit dst i src =
    if leb (i + length src) (length dst)
    then some (take i dst ++ (src ++ drop (i + length src) dst))
    else none

-- `ReadAt(&buf[i], SectorSize, k * SectorSize)`
pub read_into : FileHeader → Disk → List ℕ → ℕ → ℕ → Option (List ℕ)
read_into h d buf i k = do bytes ← read_at h d sector_size (k * sector_size); blit buf i bytes

-- `for (i = firstSector; i <= lastSector; i++) synchDisk->WriteSector(...)`, with `n` rounds left, `k`
-- the bytes of the buffer that are behind
pub write_sectors : FileHeader → Disk → List ℕ → ℕ → ℕ → ℕ → Option Disk
write_sectors h d buf zero i k = some d
write_sectors h d buf (suc n) i k = do
  answer ← byte_to_sector h (i * sector_size)
  s ← returned answer
  d1 ← write_request d s (slice sector_size k buf 0)
  write_sectors h d1 buf n (suc i) (k + sector_size)

-- the first `n` bytes of the caller's buffer, `none` past its end
abbrev pub taken : ℕ → List ℕ → Option (List ℕ)
taken n from = if leb n (length from) then some (slice n 0 from 0) else none

-- WriteAt behind the three cases: the number of bytes written, and the disk
module _ (fresh : ℕ → List ℕ) where
  pub write_bytes : FileHeader → Disk → List ℕ → ℕ → ℕ → ℕ → Option (ℕ × Disk)
  write_bytes h d from len num_bytes position = do
    let n = cut len num_bytes position
    let first = position / sector_size
    let last = (position + n - 1) / sector_size
    let count = 1 + last - first
    let first_aligned = position == first * sector_size
    let last_aligned = position + n == (last + 1) * sector_size
    let buf = fresh (count * sector_size)
    buf1 ← if first_aligned then some buf else read_into h d buf 0 first
    buf2 ←
        if not last_aligned && (not (first == last) || first_aligned)
        then read_into h d buf1 ((last - first) * sector_size) last
        else some buf1
    src ← taken n from
    buf3 ← blit buf2 (position - first * sector_size) src
    d1 ← write_sectors h d buf3 count first 0
    some (n, d1)

-- `divRoundUp(n, SectorSize)` of an `int`; division rounds to zero
abbrev pub sectors_for : ℤ → ℤ
sectors_for (pos n) = pos (div_round_up n sector_size)
sectors_for (negsuc n) = sub_ℕ 0 (suc n / sector_size)

-- `divRoundUp(numBytes - (SectorSize - offset), SectorSize)`, 0 where the difference is negative,
-- since it is above -SectorSize
abbrev pub new_sectors : ℕ → ℕ → ℕ
new_sectors num_bytes last_byte =
    div_round_up (num_bytes - (sector_size - last_byte % sector_size)) sector_size

-- The free map in its file, as WriteAt fetches it and writes it back.
module _ (blank : List ℤ) (fetch_map : Disk → Option BitMap)
    (store_map : BitMap → Disk → Option Disk) (fresh : ℕ → List ℕ) where
  -- ExtendFile between the fetch of the free map and its write
  pub extend : FileHeader → Disk → ℕ → ℕ → Option (Bool × FileHeader × Disk)
  extend h d n bytes = do
    m ← fetch_map d
    (ok, h1, m1) ← extend_file blank h m n bytes
    let stored = store_map m1 d
    d1 ← if ok then stored else some d
    some (ok, h1, d1)

  -- the write behind the extension; `len` is the `fileLength` of that case
  abbrev pub write_extended :
      List ℕ → ℕ → ℕ → ℕ → FileHeader → Disk → Option (ℕ × FileHeader × Disk)
  write_extended from len num_bytes position h d = do
    (n, d1) ← write_bytes fresh h d from len num_bytes position
    some (n, h, d1)

  -- the case of a write across the end of the file
  pub write_across : FileHeader → Disk → List ℕ → ℕ → ℕ → Option (ℕ × FileHeader × Disk)
  write_across h d from num_bytes position = do
    (ok, h1, d1) ← extend h d (new_sectors num_bytes position) (position + num_bytes)
    let written = write_extended from (file_length h) num_bytes position h1 d1
    if ok then written else some (0, h1, d1)

  -- the case of a write at the end of the file, or behind it
  pub write_behind : FileHeader → Disk → List ℕ → ℕ → Option (ℕ × FileHeader × Disk)
  write_behind h d from num_bytes = do
    let position = file_length h
    let wanted = new_sectors num_bytes (position - 1)
    let n = if position / sector_size == 0 && wanted == 0 then wanted + 1 else wanted
    (ok, h1, d1) ← extend h d n (position + num_bytes)
    let written = write_extended from (file_length h1) num_bytes position h1 d1
    if ok then written else some (0, h1, d1)

  -- `OpenFile::WriteAt`: the bytes written, the header in memory, and the disk
  pub write_at : FileHeader → Disk → List ℕ → ℕ → ℕ → Option (ℕ × FileHeader × Disk)
  write_at h d from num_bytes position = do
    let len = file_length h
    let sectors = sectors_for (sub_ℕ (len + num_bytes) position)
    let inside = write_extended from len num_bytes position h d
    let across = write_across h d from num_bytes position
    let behind = write_behind h d from num_bytes
    answer ← byte_to_sector h 0
    first ← returned answer
    if ltb_ℤ (pos (sector_size * num_sectors)) (first +ℤ sectors)
        then some (0, h, d)
        else if not (runs_past len num_bytes position)
        then inside
        else if ltb position len
        then across
        else behind

  -- `OpenFile::Write`
  pub write : OpenFile → Disk → List ℕ → ℕ → Option (ℕ × OpenFile × Disk)
  write f d from num_bytes = do
    (n, h1, d1) ← write_at f.hdr d from num_bytes f.seek_position
    some (n, record { hdr = h1; seek_position = f.seek_position + n }, d1)
