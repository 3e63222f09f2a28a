-- ===== src/Filesys/OpenFile/InPlace.antt =====
-- WriteAt inside a file: the buffer, and what becomes of the file.
use cs270hw.Base.{
  ℕ, ◌+◌, ◌-◌, ◌*◌, ◌/◌, min, ◌<◌, ◌≤◌, ◌≡◌, ◌∙◌, ◌⊎◌, refl, ap, Bool-cases, inl, inr, Bool, true,
  false, not, ◌&&◌, ◌||◌, ◌==◌, some, List, length, length-slice, get_or, slice, arith, ltb, leb,
  if◌then◌else◌, ltb→lt,
}
use cs270hw.Filesys.FileHeader.{FileHeader, file_length, sector_size}
use cs270hw.Filesys.OpenFile.{Disk, read_into, write_bytes}
use cs270hw.Filesys.OpenFile.Contents.{
  HasSectors, IsLaidOut, byte_at, file_bytes, length-file_bytes, get_or-file_bytes,
}
use cs270hw.Filesys.OpenFile.Buffers.{get_or-slice, blit_lem, between, outside, not_between}
use cs270hw.Filesys.OpenFile.Reading.{uncut_lem, read_at_lem}
use cs270hw.Filesys.OpenFile.Writing.{IsOutside, write_sectors_lem}

module _ (h : FileHeader) (sec : ℕ → ℕ) (d : Disk) (out : IsLaidOut h sec)
    (whole : HasSectors d) where
  -- a sector of the file read into the buffer at `i`
  read_into_lem :
      (buf : List ℕ) (i k : ℕ)
      → i + sector_size ≤ length buf
      → k ≤ 4
      → (r : List ℕ) × (read_into h d buf i k ≡ some r)
        × (length r ≡ length buf)
        × ((j : ℕ)
            → i ≤ j
            → j < i + sector_size
            → k * sector_size + (j - i) < file_length h
            → get_or r j 0 ≡ byte_at sec d (k * sector_size + (j - i)))
        × ((j : ℕ) → j < i → get_or r j 0 ≡ get_or buf j 0)
  unfolding read_into
  read_into_lem buf i k fits near =
      let n = min sector_size (file_length h - k * sector_size) in
      let src = file_bytes sec d n (k * sector_size) in
      let size = length-file_bytes sec d n (k * sector_size) in
      let (r, eq, len, bytes) = blit_lem buf i src (omega arith) in
      (
        r,
        rw (read_at_lem h sec d out whole sector_size (k * sector_size) (omega arith)) eq,
        len,
        λ j lo hi inside.
            let t : (leb i j && ltb j (i + length src)) ≡ true =
              between i j (length src) lo (omega arith) in
            bytes j ∙ rw t (get_or-file_bytes sec d n (k * sector_size) (j - i) (omega arith)),
        λ j before.
            let t : (leb i j && ltb j (i + length src)) ≡ false = ground arith in
            bytes j ∙ rw t refl,
      )

  -- the writer's view of the sectors `first` to `last` that it changes from `position` on
  module _ (fresh : ℕ → List ℕ) (sized : (n : ℕ) → length (fresh n) ≡ n) (num_bytes position : ℕ)
      (more : 0 < num_bytes) (fits : position + num_bytes ≤ file_length h) where
    abbrev first : ℕ
    first = position / sector_size

    abbrev last : ℕ
    last = (position + num_bytes - 1) / sector_size

    abbrev size : ℕ
    size = (1 + last - first) * sector_size

    abbrev first_aligned : Bool
    first_aligned = position == first * sector_size

    abbrev last_aligned : Bool
    last_aligned = position + num_bytes == (last + 1) * sector_size

    -- the buffer with the first sector, if a part of it stays
    buf1_lem :
        (buf1 : List ℕ) × ((if first_aligned
            then some (fresh size)
            else read_into h d (fresh size) 0 first)
          ≡ some buf1)
        × (length buf1 ≡ size)
        × (first_aligned ≡ false
            → (o : ℕ) → o < file_length h
            → o / sector_size ≡ first
            → get_or buf1 (o - first * sector_size) 0 ≡ byte_at sec d o)
    buf1_lem = elim (Bool-cases first_aligned) [
      | inl y ↦ (fresh size, rw y refl, sized size, λ n. cc)
      | inr n ↦
          let (r, eq, len, bytes, before) =
            read_into_lem (fresh size) 0 first (omega (arith, sized size))
              (omega (arith, out.small)) in
          (
            r,
            rw n eq,
            len ∙ sized size,
            λ e o less here.
                bytes (o - first * sector_size) (omega arith) (omega arith) (omega arith)
                ∙ ap (byte_at sec d) (omega arith),
          )
    ]

    starts_inside : (o : ℕ) → first ≤ o / sector_size → o < position → first_aligned ≡ false
    starts_inside o lo before = ground arith

    one_sector :
        (o : ℕ)
        → o / sector_size ≤ last
        → position + num_bytes ≤ o
        → (not last_aligned && (not (first == last) || first_aligned)) ≡ false
        → (first_aligned ≡ false) × (first ≡ last)
    one_sector o hi behind test =
        let la : last_aligned ≡ false = ground arith in
        (ground (arith, la, test), ground (arith, la, test))

    -- the buffer with all that stays of the first and the last sector
    buf2_lem :
        (buf1 : List ℕ)
        → length buf1 ≡ size
        → (first_aligned ≡ false
            → (o : ℕ) → o < file_length h
            → o / sector_size ≡ first
            → get_or buf1 (o - first * sector_size) 0 ≡ byte_at sec d o)
        → (buf2 : List ℕ) × ((if not last_aligned && (not (first == last) || first_aligned)
              then read_into h d buf1 ((last - first) * sector_size) last
              else some buf1)
            ≡ some buf2)
          × (length buf2 ≡ size)
          × ((o : ℕ)
              → o < file_length h
              → first ≤ o / sector_size
              → o / sector_size ≤ last
              → (o < position) ⊎ (position + num_bytes ≤ o)
              → get_or buf2 (o - first * sector_size) 0 ≡ byte_at sec d o)
    buf2_lem buf1 len kept =
        elim (Bool-cases (not last_aligned && (not (first == last) || first_aligned))) [
          | inl y ↦
              let (r, eq, len', bytes, before) =
                read_into_lem buf1 ((last - first) * sector_size) last (omega arith)
                  (omega (arith, out.small)) in
              (
                r,
                rw y eq,
                len' ∙ len,
                λ o less lo hi stays. elim (Bool-cases (ltb (o / sector_size) last)) [
                  | inl b ↦
                      let earlier : o / sector_size < last = ltb→lt (o / sector_size) last b in
                      before (o - first * sector_size) (omega arith)
                      ∙ kept (starts_inside o lo (omega arith)) o less (omega arith)
                  | inr a ↦
                      let here : o / sector_size ≡ last = ground (arith, a, hi) in
                      bytes (o - first * sector_size) (omega arith) (omega arith) (omega arith)
                      ∙ ap (byte_at sec d) (omega arith)
                ],
              )
          | inr n ↦ (
            buf1,
            rw n refl,
            len,
            λ o less lo hi stays. elim stays [
              | inl b ↦ kept (starts_inside o lo b) o less (omega arith)
              | inr a ↦ let (fa, same) = one_sector o hi a n in kept fa o less (omega arith)
            ],
          )
        ]

    -- the bytes of the file in the written sectors
    merged :
        (from buf2 buf3 : List ℕ) (o : ℕ)
        → ((j : ℕ)
            → get_or buf3 j 0 ≡ (
                if leb (position - first * sector_size) j
                  && ltb j (position - first * sector_size + length (slice num_bytes 0 from 0))
                then get_or (slice num_bytes 0 from 0) (j - (position - first * sector_size)) 0
                else get_or buf2 j 0))
        → (first ≤ o / sector_size
            → o / sector_size ≤ last
            → (o < position) ⊎ (position + num_bytes ≤ o)
            → get_or buf2 (o - first * sector_size) 0 ≡ byte_at sec d o)
        → (if leb first (o / sector_size) && ltb (o / sector_size) (first + (1 + last - first))
            then get_or buf3 (0 + (o - first * sector_size)) 0
            else byte_at sec d o)
          ≡ (if leb position o && ltb o (position + num_bytes)
              then get_or from (o - position) 0
              else byte_at sec d o)
    merged from buf2 buf3 o bytes kept =
        let n = length-slice num_bytes 0 from 0 in
        let here = bytes (o - first * sector_size) in
        let at : 0 + (o - first * sector_size) ≡ o - first * sector_size = omega arith in
        elim (Bool-cases (leb position o && ltb o (position + num_bytes))) [
          | inl y ↦
              let lo : position ≤ o = ground (arith, y) in
              let hi : o < position + num_bytes = ground (arith, y) in
              let t =
                between first (o / sector_size) (1 + last - first) (omega arith) (omega arith) in
              let t' =
                between (position - first * sector_size) (o - first * sector_size)
                  (length (slice num_bytes 0 from 0)) (omega arith) (omega arith) in
              rw (t, y, at)
                (here
                  ∙ rw t' (
                      get_or-slice num_bytes 0 from
                        (o - first * sector_size - (position - first * sector_size)) (omega arith)
                      ∙ ap (λ k. get_or from k 0) (omega arith)))
          | inr z ↦
              let stays : (o < position) ⊎ (position + num_bytes ≤ o) =
                outside position num_bytes o z in
              elim (Bool-cases (
                leb first (o / sector_size)
                && ltb (o / sector_size) (first + (1 + last - first)))) [
                  | inl y ↦
                      let lo : first ≤ o / sector_size = ground (arith, y) in
                      let hi : o / sector_size ≤ last = ground (arith, y) in
                      let j = o - first * sector_size in
                      let i = position - first * sector_size in
                      let apart : (j < i) ⊎ (i + num_bytes ≤ j) = elim stays [
                        | inl b ↦ inl (omega arith)
                        | inr a ↦ inr (omega arith)
                      ] in
                      let t' = not_between i j num_bytes apart in
                      rw (y, z, at) (here ∙ rw (n, t') (kept lo hi stays))
                  | inr x ↦ rw (x, z) refl
                ]
        ]

    -- What WriteAt does to the disk behind the three cases.
    pub write_bytes_lem :
        (from : List ℕ)
        → num_bytes ≤ length from
        → (d' : Disk) × (write_bytes fresh h d from (file_length h) num_bytes position
            ≡ some (num_bytes, d'))
          × HasSectors d'
          × ((o : ℕ)
              → o < file_length h
              → byte_at sec d' o ≡ (
                  if leb position o && ltb o (position + num_bytes)
                  then get_or from (o - position) 0
                  else byte_at sec d o))
          × ((s : ℕ) → IsOutside h sec s → d' s ≡ d s)
    unfolding write_bytes
    write_bytes_lem from enough =
        let (buf1, eq1, len1, kept1) = buf1_lem in
        let (buf2, eq2, len2, kept2) = buf2_lem buf1 len1 kept1 in
        let src = slice num_bytes 0 from 0 in
        let src_size = length-slice num_bytes 0 from 0 in
        let (buf3, eq3, len3, bytes) =
          blit_lem buf2 (position - first * sector_size) src (omega arith) in
        let (d', eq, whole', written, frame) =
          write_sectors_lem h sec out (1 + last - first) first 0 buf3 d whole (omega arith) in
        let uncut =
          uncut_lem (file_length h) num_bytes position (omega (arith, out.small)) (omega arith) in
        let there : leb num_bytes (length from) ≡ true = ground (arith, enough) in
        (
          d',
          rw (uncut, there, eq1, eq2, eq3, eq) refl,
          whole',
          λ o less. written o less ∙ merged from buf2 buf3 o bytes (kept2 o less),
          frame,
        )
