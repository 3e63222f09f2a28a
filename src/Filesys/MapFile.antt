-- ===== src/Filesys/MapFile.antt =====
-- userprog/bitmap.cc, FetchFrom and WriteBack: a bitmap in a file of the disk. The words are seen as
-- bytes, the low byte of a word first, as on the little-endian host.
pub mod RoundTrip
mod Tests
use cs270hw.Base.{ℕ, ◌+◌, ◌*◌, ◌/◌, ◌%◌, ◌^◌, Option, none, some, ◌>>=◌, List, [], ◌∷◌}
use cs270hw.Base.Int.{ℤ}
use cs270hw.BitMap.{BitMap}
use cs270hw.Filesys.FileHeader.{FileHeader}
use cs270hw.Filesys.OpenFile.{Disk, read_at, write_at, blit}

-- `(char *)map`
pub bytes_of : List ℕ → List ℕ
bytes_of [] = []
bytes_of (w ∷ ws) =
    w % 2 ^ 8 ∷ w / 2 ^ 8 % 2 ^ 8 ∷ w / 2 ^ 16 % 2 ^ 8 ∷ w / 2 ^ 24 % 2 ^ 8 ∷ bytes_of ws

-- the words that the bytes are
pub words_of : List ℕ → List ℕ
words_of [] = []
words_of (a ∷ []) = []
words_of (a ∷ b ∷ []) = []
words_of (a ∷ b ∷ c ∷ []) = []
words_of (a ∷ b ∷ c ∷ d ∷ bytes) = (a + b * 2 ^ 8 + c * 2 ^ 16 + d * 2 ^ 24) ∷ words_of bytes

-- `BitMap::FetchFrom`: ReadAt copies the bytes that it reads over the start of the array
pub fetch_from : FileHeader → Disk → BitMap → Option BitMap
fetch_from h d m = do
  bytes ← read_at h d (m.num_words * 4) 0
  held ← blit (bytes_of m.map) 0 bytes
  some (record m { map = words_of held })

-- `BitMap::WriteBack`: the header of the open file and the disk behind it
module _ (blank : List ℤ) (fetch_map : Disk → Option BitMap)
    (store_map : BitMap → Disk → Option Disk) (fresh : ℕ → List ℕ) where
  pub write_back : FileHeader → Disk → BitMap → Option (FileHeader × Disk)
  write_back h d m = do
    (_, h1, d1) ← write_at blank fetch_map store_map fresh h d (bytes_of m.map) (m.num_words * 4) 0
    some (h1, d1)
