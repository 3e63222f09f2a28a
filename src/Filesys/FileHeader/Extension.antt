-- ===== src/Filesys/FileHeader/Extension.antt =====
-- ExtendFile: what it adds to a header.
use cs270hw.Base.{
  ℕ, zero, suc, ◌+◌, ◌-◌, ◌*◌, ◌≤◌, ◌<◌, ◌≡◌, refl, some, List, map, arith, Bool, true, ltb, ◌==◌,
  if◌then◌else◌, length, get_or, le→ltb, min, max, inl, inr, Bool-cases, >>=-eq-some, store,
  div_round_up,
}
use cs270hw.Base.Int.{ℤ, pos, minus_one}
use cs270hw.BitMap.{BitMap, num_clear}
use cs270hw.BitMap.Bits.{IsValid}
use cs270hw.BitMap.Count.{free_bits, num_clear_lem}
use cs270hw.BitMap.Takes.{Takes}
use cs270hw.Filesys.FileHeader.{
  FileHeader, extend_file, extend_blocks, extend_loop, new_block, fill, direct_loop,
  pointer_sectors,
}
use cs270hw.Filesys.FileHeader.Sectors.{entries, direct_loop_lem}

module _ (blank : List ℤ) where
  extend_loop-num_sectors :
      (rounds j n : ℕ) (h : FileHeader) (m : BitMap) (r : ℕ × FileHeader × BitMap)
      → extend_loop blank rounds j n h m ≡ some r
      → (r.1.num_sectors ≡ h.num_sectors) × (r.1.num_bytes ≡ h.num_bytes)
  unfolding extend_loop
  extend_loop-num_sectors zero j n h m r e = ground arith
  extend_loop-num_sectors (suc rounds) j n h m r e =
      let count : ℕ = if rounds == 0 then n else pointer_sectors in
      let ((b, m1), e1, e2) = >>=-eq-some (fill count (new_block blank) m) _ e in
      let (bs, e3, e4) = >>=-eq-some (store h.indirect_data_sectors j (some b)) _ e2 in
      extend_loop-num_sectors rounds (suc j) (n - count) (record h { indirect_data_sectors = bs })
        m1 r e4

  extend_blocks-num_sectors :
      (h : FileHeader) (m : BitMap) (n : ℕ) (r : Bool × FileHeader × BitMap)
      → extend_blocks blank h m n ≡ some r
      → (r.1.num_sectors ≡ h.num_sectors) × (r.1.num_bytes ≡ h.num_bytes)
  unfolding extend_blocks
  extend_blocks-num_sectors h m n r e =
      let room : ℕ =
        div_round_up (h.num_sectors - 4) pointer_sectors * pointer_sectors - (h.num_sectors - 4) in
      let left : ℕ = n - (if ltb n room then n else room) in
      elim (Bool-cases (left == 0)) [
        | inl z ↦ let e1 = rw z at e in ground arith
        | inr z ↦
            let ((left', h', m'), e2, e3) = >>=-eq-some _ _ (rw z at e) in
            let kept = extend_loop-num_sectors _ _ _ h m (left', h', m') e2 in ground (arith, kept)
      ]

  -- A successful ExtendFile sets the length, and counts the added sectors up to the fourth sector of
  -- the file only: those that it puts into indirect blocks are not in `numSectors`.
  pub extend_file-num_sectors :
      (h h' : FileHeader) (m m' : BitMap) (n bytes : ℕ)
      → extend_file blank h m n bytes ≡ some (true, h', m')
      → (h'.num_bytes ≡ bytes) × (h'.num_sectors ≡ max h.num_sectors (min (n + h.num_sectors) 4))
  unfolding extend_file
  extend_file-num_sectors h h' m m' n bytes e =
      let (clear, e1, e2) = >>=-eq-some (num_clear m) _ e in
      let top : ℕ = if ltb h.num_sectors 4 then min (n + h.num_sectors) 4 else h.num_sectors in
      elim (Bool-cases (ltb clear n)) [
        | inl few ↦ let e3 = rw few at e2 in cc
        | inr few ↦
            let e3 = rw few at e2 in
            let ((xs, m1), e4, e5) =
              >>=-eq-some (direct_loop (top - h.num_sectors) h.num_sectors h.direct_data_sectors m)
                _ e3 in
            elim (Bool-cases (n - (top - h.num_sectors) == 0)) [
              | inl z ↦ let e6 = rw z at e5 in ground arith
              | inr z ↦
                  let kept = extend_blocks-num_sectors _ m1 _ (true, h', m') (rw z at e5) in
                  ground (arith, kept)
            ]
      ]

  -- On a valid map with `n` clear bits, for a header with room for `n` more direct sectors:
  -- ExtendFile returns true, the `n` sectors that it adds are bits taken from the map, written
  -- behind those that the header had, which stay, and the length and `numSectors` are the new
  -- ones.
  pub extend_file_direct :
      (h : FileHeader) (m : BitMap) (n bytes : ℕ)
      → IsValid m
      → length h.direct_data_sectors ≡ 4
      → h.num_sectors < 4
      → n + h.num_sectors ≤ 4
      → n ≤ free_bits m
      → (h' : FileHeader) × (m' : BitMap) × (ks : List ℕ) × (extend_file blank h m n bytes
          ≡ some (true, h', m'))
        × (h'.num_bytes ≡ bytes)
        × (h'.num_sectors ≡ n + h.num_sectors)
        × Takes m ks m'
        × (entries n h.num_sectors h'.direct_data_sectors ≡ map pos ks)
        × ((j : ℕ)
            → j < h.num_sectors
            → get_or h'.direct_data_sectors j minus_one ≡ get_or h.direct_data_sectors j minus_one)
  unfolding extend_file
  extend_file_direct h m n bytes v d few fits enough =
      let (xs, m1, e1, f) =
        direct_loop_lem n h.num_sectors h.direct_data_sectors m v (omega (arith, d)) in
      let (ks, t, es) = f.taken enough in
      let top : (if ltb h.num_sectors 4 then min (n + h.num_sectors) 4 else h.num_sectors)
          ≡ n + h.num_sectors =
        ground arith in
      let added : n + h.num_sectors - h.num_sectors ≡ n = omega arith in
      let nothing_left : (n - n == 0) ≡ true = ground arith in
      (
        record h { num_bytes = bytes; num_sectors = n + h.num_sectors; direct_data_sectors = xs },
        m1,
        ks,
        rw (num_clear_lem m v, le→ltb (free_bits m) n enough, top, added, e1, nothing_left),
        refl,
        refl,
        t,
        es,
        f.before,
      )
