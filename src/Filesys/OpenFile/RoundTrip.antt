-- ===== src/Filesys/OpenFile/RoundTrip.antt =====
-- WriteAt inside a file, and ReadAt behind it.
use cs270hw.Base.{
  ℕ, ◌+◌, ◌-◌, ◌*◌, min, ◌<◌, ◌≤◌, ◌≡◌, ◌∙◌, refl, sym, ap, true, false, ◌&&◌, Option, some, ◌>>=◌,
  List, length, length-slice, get_or, slice, arith, ltb, leb, if◌then◌else◌, le→ltb, div_round_up,
}
use cs270hw.Base.Int.{ℤ, pos, sub_ℕ, ltb_ℤ, ◌+ℤ◌}
use cs270hw.BitMap.{BitMap}
use cs270hw.Filesys.FileHeader.{FileHeader, file_length, sector_size}
use cs270hw.Filesys.OpenFile.{Disk, num_sectors, read_at, write_at, read, write, seek, sectors_for}
use cs270hw.Filesys.OpenFile.Contents.{
  HasSectors, IsLaidOut, byte_at, slice-file_bytes, byte_to_sector_lem,
}
use cs270hw.Filesys.OpenFile.Reading.{inside_lem, read_at_lem}
use cs270hw.Filesys.OpenFile.Writing.{IsOutside}
use cs270hw.Filesys.OpenFile.InPlace.{write_bytes_lem}
use cs270hw.Filesys.OpenFile.Buffers.{between}

add_pos : (a b : ℕ) → (pos a +ℤ pos b) ≡ pos (a + b)
unfolding ◌+ℤ◌
add_pos a b = let t : leb (0 + 0) (a + b) ≡ true = ground arith in rw t (ap pos (omega arith))

div_round_up_small : (n : ℕ) → n ≤ 1024 → div_round_up n sector_size ≤ 9
div_round_up_small n h = ground arith

module _ (blank : List ℤ) (fetch_map : Disk → Option BitMap)
    (store_map : BitMap → Disk → Option Disk) (fresh : ℕ → List ℕ)
    (sized : (n : ℕ) → length (fresh n) ≡ n) where
  module _ (h : FileHeader) (sec : ℕ → ℕ) (d : Disk) (out : IsLaidOut h sec)
      (whole : HasSectors d) where
    -- the first test of WriteAt does not stop a write inside a small file
    passes_check :
        (num_bytes position : ℕ)
        → 0 < num_bytes
        → position + num_bytes ≤ file_length h
        → ltb_ℤ
            (pos (sector_size * num_sectors))
            (pos (sec 0) +ℤ sectors_for (sub_ℕ (file_length h + num_bytes) position))
          ≡ false
    passes_check num_bytes position more fits =
        let first = out.on_disk 0 (omega arith) in
        let small = out.small in
        let forward : leb position (file_length h + num_bytes) ≡ true = ground arith in
        let n = file_length h + num_bytes - position in
        let few : div_round_up n sector_size ≤ 9 = div_round_up_small n (omega arith) in
        rw (forward, add_pos (sec 0) (div_round_up n sector_size))
          (le→ltb (sector_size * num_sectors + 0) (sec 0 + div_round_up n sector_size + 0)
            (omega arith))

    -- A write of bytes of the buffer inside a file of direct sectors writes them all, leaves the header as it is, and
    -- changes no other byte of the file and no sector of the disk that is not one of the file.
    pub write_at_inside :
        (from : List ℕ) (num_bytes position : ℕ)
        → 0 < num_bytes
        → position + num_bytes ≤ file_length h
        → num_bytes ≤ length from
        → (d' : Disk) × (write_at blank fetch_map store_map fresh h d from num_bytes position
            ≡ some (num_bytes, h, d'))
          × HasSectors d'
          × ((o : ℕ)
              → o < file_length h
              → byte_at sec d' o ≡ (
                  if leb position o && ltb o (position + num_bytes)
                  then get_or from (o - position) 0
                  else byte_at sec d o))
          × ((s : ℕ) → IsOutside h sec s → d' s ≡ d s)
    unfolding write_at
    write_at_inside from num_bytes position more fits enough =
        let (d', eq, whole', bytes, frame) =
          write_bytes_lem h sec d out whole fresh sized num_bytes position more fits from enough in
        let test = passes_check num_bytes position more fits in
        let inside =
          inside_lem (file_length h) num_bytes position (omega (arith, out.small)) fits in
        let first = byte_to_sector_lem h sec 0 out (omega arith) in
        (d', rw (first, test, inside, eq) refl, whole', bytes, frame)

    -- ReadAt of the place that WriteAt wrote, inside a file of direct sectors, gives the bytes written.
    pub read_at-write_at :
        (from : List ℕ) (num_bytes position : ℕ)
        → 0 < num_bytes
        → position + num_bytes ≤ file_length h
        → num_bytes ≤ length from
        → (do
          (_, h1, d1) ← write_at blank fetch_map store_map fresh h d from num_bytes position
          read_at h1 d1 num_bytes position)
          ≡ some (slice num_bytes 0 from 0)
    read_at-write_at from num_bytes position more fits enough =
        let (d', eq, whole', bytes, frame) =
          write_at_inside from num_bytes position more fits enough in
        let all : min num_bytes (file_length h - position) ≡ num_bytes = omega arith in
        let same = slice-file_bytes sec d' from num_bytes 0 position (λ j less.
          let t = between position (position + j) num_bytes (omega arith) (omega arith) in
          let written : byte_at sec d' (position + j) ≡ get_or from (position + j - position) 0 =
            rw t at (bytes (position + j) (omega arith)) in
          ap (λ k. get_or from k 0) (omega arith) ∙ sym written) in
        rw
          (
            eq,
            read_at_lem h sec d' out whole' num_bytes position (omega (arith, out.small)),
            all,
            same,
          )
          refl

    -- Write of bytes of the buffer at the position of an open file with direct sectors, inside it, then Seek back and
    -- Read as many bytes: the bytes read are those written, and the position is behind them.
    pub read-write :
        (from : List ℕ) (num_bytes position : ℕ)
        → 0 < num_bytes
        → position + num_bytes ≤ file_length h
        → num_bytes ≤ length from
        → (do
          (_, f1, d1) ←
              write blank fetch_map store_map fresh
                (record { hdr = h; seek_position = position })
                d
                from
                num_bytes
          read (seek position f1) d1 num_bytes)
          ≡ some
              (slice num_bytes 0 from 0, record { hdr = h; seek_position = position + num_bytes })
    unfolding write read
    read-write from num_bytes position more fits enough =
        let (d', eq, whole', bytes, frame) =
          write_at_inside from num_bytes position more fits enough in
        let got : read_at h d' num_bytes position ≡ some (slice num_bytes 0 from 0) =
          rw eq at (read_at-write_at from num_bytes position more fits enough) in
        rw (eq, got, length-slice num_bytes 0 from 0) refl
