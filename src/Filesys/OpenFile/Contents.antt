-- ===== src/Filesys/OpenFile/Contents.antt =====
-- A file on the disk as its bytes.
use cs270hw.Base.{
  ℕ, zero, suc, ◌+◌, ◌*◌, ◌/◌, ◌%◌, ◌<◌, ◌≤◌, ◌≡◌, ◌∙◌, refl, ap, some, List, [], ◌∷◌, length,
  get_or, get_elem?, slice, arith,
}
use cs270hw.Base.Int.{pos}
use cs270hw.Filesys.FileHeader.{FileHeader, sector, byte_to_sector, file_length, sector_size}
use cs270hw.Filesys.FileHeader.Release.{byte_to_sector-sector}
use cs270hw.Filesys.OpenFile.{Disk, num_sectors}

-- every sector is a whole one
abbrev pub HasSectors : Disk → Type 0
HasSectors d = (s : ℕ) → length (d s) ≡ sector_size

-- The sectors of a file that has direct sectors only: `sec k` is the one of its bytes from
-- `k * sector_size` on.
pub record IsLaidOut (h : FileHeader) (sec : ℕ → ℕ) : Type 0 where
  pub small : file_length h ≤ 4 * sector_size
  pub direct :
      (k : ℕ)
      → k * sector_size < file_length h
      → get_elem? h.direct_data_sectors k ≡ some (pos (sec k))
  pub on_disk : (k : ℕ) → k * sector_size < file_length h → sec k < num_sectors
  pub distinct :
      (j k : ℕ)
      → j * sector_size < file_length h
      → k * sector_size < file_length h
      → sec j ≡ sec k
      → j ≡ k

-- the byte at an offset of the file
abbrev pub byte_at : (ℕ → ℕ) → Disk → ℕ → ℕ
byte_at sec d o = get_or (d (sec (o / sector_size))) (o % sector_size) 0

-- `n` bytes of the file
abbrev pub file_bytes : (ℕ → ℕ) → Disk → ℕ → ℕ → List ℕ
file_bytes sec d zero o = []
file_bytes sec d (suc n) o = byte_at sec d o ∷ file_bytes sec d n (suc o)

pub length-file_bytes : (sec : ℕ → ℕ) (d : Disk) (n o : ℕ) → length (file_bytes sec d n o) ≡ n
length-file_bytes sec d zero o = refl
length-file_bytes sec d (suc n) o = ap suc (length-file_bytes sec d n (suc o))

pub get_or-file_bytes :
    (sec : ℕ → ℕ) (d : Disk) (n o j : ℕ)
    → j < n
    → get_or (file_bytes sec d n o) j 0 ≡ byte_at sec d (o + j)
get_or-file_bytes sec d zero o j h = absurd (omega arith)
get_or-file_bytes sec d (suc n) o zero h = ap (byte_at sec d) (omega arith)
get_or-file_bytes sec d (suc n) o (suc j) h =
    get_or-file_bytes sec d n (suc o) j (omega arith) ∙ ap (byte_at sec d) (omega arith)

-- A slice of a buffer that holds the bytes of the file is a part of the file.
pub slice-file_bytes :
    (sec : ℕ → ℕ) (d : Disk) (buf : List ℕ) (n i o : ℕ)
    → ((j : ℕ) → j < n → get_or buf (i + j) 0 ≡ byte_at sec d (o + j))
    → slice n i buf 0 ≡ file_bytes sec d n o
slice-file_bytes sec d buf zero i o h = refl
slice-file_bytes sec d buf (suc n) i o h =
    let first : get_or buf i 0 ≡ byte_at sec d o =
      ap (λ k. get_or buf k 0) (omega arith)
      ∙ h 0 (omega arith)
      ∙ ap (byte_at sec d) (omega arith) in
    let others = slice-file_bytes sec d buf n (suc i) (suc o) (λ j less.
      ap (λ k. get_or buf k 0) (omega arith)
      ∙ h (suc j) (omega arith)
      ∙ ap (byte_at sec d) (omega arith)) in
    rw (first, others) refl

-- ByteToSector finds the sectors of the file.
pub byte_to_sector_lem :
    (h : FileHeader) (sec : ℕ → ℕ) (k : ℕ)
    → IsLaidOut h sec
    → k * sector_size < file_length h
    → byte_to_sector h (k * sector_size) ≡ some (sector (pos (sec k)))
byte_to_sector_lem h sec k out inside =
    let e : k * sector_size / sector_size ≡ k = omega arith in
    let small = out.small in
    (byte_to_sector-sector h (k * sector_size) (pos (sec k))).1
      (omega arith, rw e (out.direct k inside))
