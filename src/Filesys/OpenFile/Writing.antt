-- ===== src/Filesys/OpenFile/Writing.antt =====
-- The sectors that WriteAt writes.
use cs270hw.Base.{
  ℕ, zero, suc, ◌+◌, ◌-◌, ◌*◌, ◌/◌, ◌%◌, ◌<◌, ◌≤◌, ◌≡◌, ◌≢◌, ◌∙◌, refl, sym, ap, Bool-cases, inl,
  inr, true, false, ◌&&◌, ◌==◌, ==_iff, some, List, length, length-slice, get_or, slice, arith, ltb,
  leb, if◌then◌else◌, lt→ltb,
}
use cs270hw.Filesys.FileHeader.{FileHeader, file_length, sector_size}
use cs270hw.Filesys.OpenFile.{Disk, num_sectors, write_sectors}
use cs270hw.Filesys.OpenFile.Contents.{HasSectors, IsLaidOut, byte_at, byte_to_sector_lem}
use cs270hw.Filesys.OpenFile.Buffers.{get_or-slice}

-- A sector that is not one of the file.
abbrev pub IsOutside : FileHeader → (ℕ → ℕ) → ℕ → Type 0
IsOutside h sec s = (k : ℕ) → k * sector_size < file_length h → sec k ≢ s

-- a disk with one sector replaced
abbrev pub with_sector : Disk → ℕ → List ℕ → Disk
with_sector d s bytes = λ q. if q == s then bytes else d q

with_sector-HasSectors :
    (d : Disk) (s : ℕ) (bytes : List ℕ)
    → HasSectors d
    → length bytes ≡ sector_size
    → HasSectors (with_sector d s bytes)
with_sector-HasSectors d s bytes whole size q = elim (Bool-cases (q == s)) [
  | inl y ↦ rw y size
  | inr n ↦ rw n (whole q)
]

with_sector_other : (d : Disk) (s q : ℕ) (bytes : List ℕ) → s ≢ q → with_sector d s bytes q ≡ d q
with_sector_other d s q bytes other = elim (Bool-cases (q == s)) [
  | inl y ↦ absurd (other (sym ((==_iff q s).0 y)))
  | inr n ↦ rw n refl
]

module _ (h : FileHeader) (sec : ℕ → ℕ) (out : IsLaidOut h sec) where
  -- one sector of the file replaced
  byte_at-with_sector :
      (d : Disk) (k : ℕ) (bytes : List ℕ) (o : ℕ)
      → k * sector_size < file_length h
      → o < file_length h
      → byte_at sec (with_sector d (sec k) bytes) o
        ≡ (if o / sector_size == k then get_or bytes (o % sector_size) 0 else byte_at sec d o)
  byte_at-with_sector d k bytes o here inside = elim (Bool-cases (o / sector_size == k)) [
    | inl y ↦
        let e = (==_iff (o / sector_size) k).0 y in
        let same : (sec (o / sector_size) == sec k) ≡ true =
          (==_iff (sec (o / sector_size)) (sec k)).1 (ap sec e) in
        rw (same, y) refl
    | inr n ↦
        let other : (sec (o / sector_size) == sec k) ≡ false =
          elim (Bool-cases (sec (o / sector_size) == sec k)) [
            | inl y ↦
                let e = (==_iff (sec (o / sector_size)) (sec k)).0 y in
                let e' =
                  (==_iff (o / sector_size) k).1
                    (out.distinct (o / sector_size) k (omega arith) here e) in
                cc
            | inr m ↦ m
          ] in
        rw (other, n) refl
  ]

  -- the byte at `o` behind the first round and the others
  pieces :
      (i n k : ℕ) (buf : List ℕ) (d : Disk) (o : ℕ) {b : ℕ}
      → b ≡ (
          if o / sector_size == i
          then get_or (slice sector_size k buf 0) (o % sector_size) 0
          else byte_at sec d o)
      → (if leb (suc i) (o / sector_size) && ltb (o / sector_size) (suc i + n)
          then get_or buf (k + sector_size + (o - suc i * sector_size)) 0
          else b)
        ≡ (if leb i (o / sector_size) && ltb (o / sector_size) (i + suc n)
            then get_or buf (k + (o - i * sector_size)) 0
            else byte_at sec d o)
  pieces i n k buf d o first = elim (Bool-cases (o / sector_size == i)) [
    | inl y ↦
        let e = (==_iff (o / sector_size) i).0 y in
        let t : (leb (suc i) (o / sector_size) && ltb (o / sector_size) (suc i + n)) ≡ false =
          ground arith in
        let t' : (leb i (o / sector_size) && ltb (o / sector_size) (i + suc n)) ≡ true =
          ground arith in
        let part = get_or-slice sector_size k buf (o % sector_size) (omega arith) in
        let place : k + o % sector_size ≡ k + (o - i * sector_size) = omega arith in
        let first' = rw y at first in rw (t, t') (first' ∙ part ∙ ap (λ q. get_or buf q 0) place)
    | inr m ↦
        let first' = rw m at first in
        elim (Bool-cases (leb (suc i) (o / sector_size) && ltb (o / sector_size) (suc i + n))) [
          | inl y ↦
              let t' : (leb i (o / sector_size) && ltb (o / sector_size) (i + suc n)) ≡ true =
                ground (arith, y) in
              let later : suc i ≤ o / sector_size = ground (arith, y) in
              rw (y, t') (ap (λ q. get_or buf q 0) (omega arith))
          | inr z ↦
              let t' : (leb i (o / sector_size) && ltb (o / sector_size) (i + suc n)) ≡ false =
                ground (arith, z, m) in
              rw (z, t') first'
        ]
  ]

  -- The loop of WriteAt puts the buffer from `k` on into the sectors of the file from `i` on, `n` of
  -- them, and changes no other byte of the file and no other sector.
  pub write_sectors_lem :
      (n i k : ℕ) (buf : List ℕ) (d : Disk)
      → HasSectors d
      → (n + i - 1) * sector_size < file_length h
      → (d' : Disk) × (write_sectors h d buf n i k ≡ some d')
        × HasSectors d'
        × ((o : ℕ)
            → o < file_length h
            → byte_at sec d' o ≡ (
                if leb i (o / sector_size) && ltb (o / sector_size) (i + n)
                then get_or buf (k + (o - i * sector_size)) 0
                else byte_at sec d o))
        × ((s : ℕ) → IsOutside h sec s → d' s ≡ d s)
  unfolding write_sectors
  write_sectors_lem zero i k buf d whole inside = (
    d,
    refl,
    whole,
    λ o less.
        let t : (leb i (o / sector_size) && ltb (o / sector_size) (i + 0)) ≡ false = ground arith in
        rw t refl,
    λ s other. refl,
  )
  write_sectors_lem (suc n) i k buf d whole inside =
      let here : i * sector_size < file_length h = omega arith in
      let on_disk = lt→ltb (sec i) num_sectors (out.on_disk i here) in
      let d1 = with_sector d (sec i) (slice sector_size k buf 0) in
      let whole1 : HasSectors d1 =
        with_sector-HasSectors d (sec i) (slice sector_size k buf 0) whole
          (length-slice sector_size k buf 0) in
      let (d', eq, whole', bytes, frame) =
        write_sectors_lem n (suc i) (k + sector_size) buf d1 whole1 (omega arith) in
      (
        d',
        rw (byte_to_sector_lem h sec i out here, on_disk) eq,
        whole',
        λ o less.
            bytes o less
            ∙ pieces i n k buf d o
                (byte_at-with_sector d i (slice sector_size k buf 0) o here less),
        λ s other.
            frame s other
            ∙ with_sector_other d (sec i) s (slice sector_size k buf 0) (other i here),
      )
