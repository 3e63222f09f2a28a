-- ===== src/Filesys/OpenFile/Reading.antt =====
-- ReadAt gives the bytes of the file.
use cs270hw.Base.{
  ℕ, zero, suc, ◌+◌, ◌-◌, ◌*◌, ◌/◌, ◌%◌, ◌^◌, min, ◌<◌, ◌≤◌, ◌≡◌, ◌∙◌, refl, ap, Bool-cases, inl,
  inr, true, false, ◌||◌, ◌==◌, some, ◌>>=◌, List, [], ◌∷◌, ◌++◌, length, length-append, get_or,
  slice, arith, ltb, leb, if◌then◌else◌, lt→ltb, ltb→lt,
}
use cs270hw.Filesys.FileHeader.{FileHeader, file_length, sector_size}
use cs270hw.Filesys.OpenFile.{
  Disk, num_sectors, read_sectors, read_at, sector_count, runs_past, cut,
}
use cs270hw.Filesys.OpenFile.Contents.{
  HasSectors, IsLaidOut, byte_at, file_bytes, slice-file_bytes, byte_to_sector_lem,
}

get_or-append :
    (xs ys : List ℕ) (j : ℕ)
    → get_or (xs ++ ys) j 0
      ≡ (if ltb j (length xs) then get_or xs j 0 else get_or ys (j - length xs) 0)
get_or-append [] ys j = ground arith
get_or-append (x ∷ xs) ys zero = ground arith
get_or-append (x ∷ xs) ys (suc j) = ground (arith, get_or-append xs ys j)

-- a request inside a file
pub inside_lem :
    (len n position : ℕ) → len < 2 ^ 31 → position + n ≤ len → runs_past len n position ≡ false
inside_lem len n position small fits = ground arith

pub uncut_lem : (len n position : ℕ) → len < 2 ^ 31 → position + n ≤ len → cut len n position ≡ n
uncut_lem len n position small fits = rw (inside_lem len n position small fits) refl

-- a request past the end of a file
pub past_lem :
    (len n position : ℕ)
    → position + n < 2 ^ 31
    → len < position + n
    → runs_past len n position ≡ true
past_lem len n position small past = ground arith

pub cut_lem :
    (len n position : ℕ)
    → (n == 0 || leb len position) ≡ false
    → position + n < 2 ^ 31
    → (cut len n position ≡ min n (len - position))
      × (0 < cut len n position)
      × (position + cut len n position ≤ len)
cut_lem len n position more small =
    let sum : (position + n) % 2 ^ 32 ≡ position + n = omega arith in
    let int : ltb (position + n) (2 ^ 31) ≡ true = lt→ltb (position + n) (2 ^ 31) small in
    rw (sum, int) (ground (arith, more), ground (arith, more), ground (arith, more))

module _ (h : FileHeader) (sec : ℕ → ℕ) (d : Disk) (out : IsLaidOut h sec)
    (whole : HasSectors d) where
  read_sectors_lem :
      (n i : ℕ)
      → (n + i - 1) * sector_size < file_length h
      → (buf : List ℕ) × (read_sectors h d n i ≡ some buf)
        × (length buf ≡ n * sector_size)
        × ((j : ℕ) → j < n * sector_size → get_or buf j 0 ≡ byte_at sec d (i * sector_size + j))
  unfolding read_sectors
  read_sectors_lem zero i inside = ([], refl, omega arith, λ j less. absurd (omega arith))
  read_sectors_lem (suc n') i inside =
      let here : i * sector_size < file_length h = omega arith in
      let (buf, eq, len, bytes) = read_sectors_lem n' (suc i) (omega arith) in
      let on_disk = lt→ltb (sec i) num_sectors (out.on_disk i here) in
      let size = whole (sec i) in
      let joined = length-append (d (sec i)) buf in
      (
        d (sec i) ++ buf,
        rw (byte_to_sector_lem h sec i out here, on_disk, eq) refl,
        omega arith,
        λ j less. get_or-append (d (sec i)) buf j ∙ elim (Bool-cases (ltb j (length (d (sec i))))) [
          | inl y ↦
              let near = ltb→lt j (length (d (sec i))) y in
              let q : (i * sector_size + j) / sector_size ≡ i = omega arith in
              let r : (i * sector_size + j) % sector_size ≡ j = omega arith in rw (y, q, r) refl
          | inr n ↦
              let far : (length (d (sec i)) ≤ j) × (j - length (d (sec i)) < n' * sector_size) =
                ground (arith, n) in
              rw n (bytes (j - length (d (sec i))) far.1 ∙ ap (byte_at sec d) (omega arith))
        ],
      )

  -- what ReadAt does with a request that the file can meet
  read_n :
      (n position : ℕ)
      → 0 < n
      → position + n ≤ file_length h
      → (do
        buf ← read_sectors h d (sector_count n position) (position / sector_size)
        some (slice n (position - position / sector_size * sector_size) buf 0))
        ≡ some (file_bytes sec d n position)
  read_n n position some_left fits =
      let (buf, eq, len, bytes) =
        read_sectors_lem (sector_count n position) (position / sector_size) (omega arith) in
      let part =
        slice-file_bytes sec d buf n (position - position / sector_size * sector_size) position
          (λ j less.
            bytes (position - position / sector_size * sector_size + j) (omega arith)
            ∙ ap (byte_at sec d) (omega arith)) in
      rw (eq, part) refl

  -- ReadAt on a file of direct sectors, for a request whose end is below 2^31, copies the bytes of the
  -- file from the position on, as many as asked for and as the file has.
  pub read_at_lem :
      (num_bytes position : ℕ)
      → position + num_bytes < 2 ^ 31
      → read_at h d num_bytes position
        ≡ some (file_bytes sec d (min num_bytes (file_length h - position)) position)
  unfolding read_at
  read_at_lem num_bytes position small =
      elim (Bool-cases (num_bytes == 0 || leb (file_length h) position)) [
        | inl y ↦
            let none_left : min num_bytes (file_length h - position) ≡ 0 = ground (arith, y) in
            rw (y, none_left) refl
        | inr more ↦
            let request = cut_lem (file_length h) num_bytes position more small in
            let n : ℕ = cut (file_length h) num_bytes position in
            rw more (
              read_n n position request.1 request.2
              ∙ ap (λ k. some (file_bytes sec d k position)) request.0)
      ]
