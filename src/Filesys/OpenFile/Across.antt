-- ===== src/Filesys/OpenFile/Across.antt =====
-- WriteAt across the end of a file.
use cs270hw.Base.{
  ℕ, ◌+◌, ◌-◌, ◌^◌, ◌<◌, ◌≡◌, ◌⊎◌, inl, inr, Bool, true, false, Option, some, >>=-eq-some, List,
  arith, if◌then◌else◌,
}
use cs270hw.Base.Int.{ℤ}
use cs270hw.BitMap.{BitMap}
use cs270hw.Filesys.FileHeader.{FileHeader, file_length}
use cs270hw.Filesys.OpenFile.Reading.{past_lem}
use cs270hw.Filesys.OpenFile.{
  Disk, write_at, write_across, write_extended, write_bytes, extend, cut, new_sectors,
}

module _ (fresh : ℕ → List ℕ) where
  -- the number of bytes that is returned
  write_bytes-count :
      (h : FileHeader) (d : Disk) (from : List ℕ) (len num_bytes position : ℕ) {n : ℕ} {d' : Disk}
      → write_bytes fresh h d from len num_bytes position ≡ some (n, d')
      → n ≡ cut len num_bytes position
  unfolding write_bytes
  write_bytes-count h d from len num_bytes position e = ground arith

module _ (blank : List ℤ) (fetch_map : Disk → Option BitMap)
    (store_map : BitMap → Disk → Option Disk) (fresh : ℕ → List ℕ) where
  write_across-count :
      (h : FileHeader) (d : Disk) (from : List ℕ) (num_bytes position : ℕ) {n : ℕ} {h' : FileHeader}
      {d' : Disk}
      → write_across blank fetch_map store_map fresh h d from num_bytes position ≡ some (n, h', d')
      → (n ≡ cut (file_length h) num_bytes position) ⊎ (n ≡ 0)
  unfolding write_across
  write_across-count h d from num_bytes position {n} {h'} {d'} e =
      let ((ok, h1, d1), e1, e2) =
        >>=-eq-some
          (extend blank fetch_map store_map fresh h d (new_sectors num_bytes position)
            (position + num_bytes))
          _ e in
      answer ok h1 d1 e2
    where
      answer :
          (ok : Bool) (h1 : FileHeader) (d1 : Disk)
          → (if ok
              then write_extended blank fetch_map store_map fresh from
                  (file_length h)
                  num_bytes
                  position
                  h1
                  d1
              else some (0, h1, d1))
            ≡ some (n, h', d')
          → (n ≡ cut (file_length h) num_bytes position) ⊎ (n ≡ 0)
      answer true h1 d1 e' =
          let ((m, d2), e3, e4) =
            >>=-eq-some (write_bytes fresh h1 d1 from (file_length h) num_bytes position)
              (λ r. some (r.0, h1, r.1)) e' in
          let count = write_bytes-count fresh h1 d1 from (file_length h) num_bytes position e3 in
          inl (ground arith)
      answer false h1 d1 e' = inr (ground arith)

  -- A write across the end of a file, to a byte below 2^31, returns no more than the number of bytes up to the end that the
  -- file had before, also where the file was extended.
  pub write_at_across :
      (h : FileHeader) (d : Disk) (from : List ℕ) (num_bytes position : ℕ) {n : ℕ} {h' : FileHeader}
      {d' : Disk}
      → position < file_length h
      → file_length h < position + num_bytes
      → position + num_bytes < 2 ^ 31
      → write_at blank fetch_map store_map fresh h d from num_bytes position ≡ some (n, h', d')
      → (n ≡ file_length h - position) ⊎ (n ≡ 0)
  unfolding write_at
  write_at_across h d from num_bytes position {n} {h'} {d'} before beyond small e =
      let past = past_lem (file_length h) num_bytes position small beyond in
      let count : write_across blank fetch_map store_map fresh h d from num_bytes position
            ≡ some (n, h', d')
          → (n ≡ cut (file_length h) num_bytes position) ⊎ (n ≡ 0) =
        write_across-count h d from num_bytes position in
      ground (arith, count, past)
