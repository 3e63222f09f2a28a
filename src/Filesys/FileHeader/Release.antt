-- ===== src/Filesys/FileHeader/Release.antt =====
-- Deallocate, and what Allocate and Deallocate do to the free map together.
use cs270hw.Base.{
  ℕ, zero, suc, ◌+◌, ◌*◌, ◌^◌, ◌≤◌, ◌<◌, ◌≡◌, ◌≢◌, inl, inr, refl, ◌∙◌, ap, Option, none, some,
  List, map, arith, true, ltb, ◌>>=◌, length, get_or, get_elem?-get_or, Option-cases, Bool-cases,
  length-append, length-slice, length-map, ◌↔◌, ltb→lt, lt→ltb, ◌/◌, get_elem?,
}
use cs270hw.Base.Int.{ℤ, pos, minus_one}
use cs270hw.BitMap.{BitMap}
use cs270hw.BitMap.Bits.{IsValid, is_set}
use cs270hw.BitMap.Count.{free_bits}
use cs270hw.BitMap.Takes.{
  Takes, Takes-free_bits, free_one, free_all, free_all-append, free_all-Takes,
}
use cs270hw.Filesys.FileHeader.{
  FileHeader, num_in_direct, indirect_blocks, allocate, deallocate, free_loop, free_blocks,
  block_deallocate, byte_to_sector, sector, indirect_answer, block_byte_to_sector,
}
use cs270hw.Filesys.FileHeader.Sectors.{entries}
use cs270hw.Filesys.FileHeader.Blocks.{blocks, indirect_blocks_lem}
use cs270hw.Filesys.FileHeader.Allocation.{
  direct_count, sectors_of, HasArrays, IsComplete, Allocated, total_sectors, sectors_taken,
  total_small, allocate_lem,
}

total-le-taken :
    (file_size : ℕ) → file_size < 2 ^ 31 → total_sectors file_size ≤ sectors_taken file_size
total-le-taken f h = ground (arith, total_small f h, indirect_blocks_lem (total_sectors f))

free_loop-entries :
    (n i : ℕ) (xs : List ℤ) (m : BitMap)
    → i + n ≤ length xs
    → free_loop n i xs m ≡ free_all (entries n i xs) m
unfolding free_loop free_all
free_loop-entries zero i xs m h = refl
free_loop-entries (suc n) i xs m h =
    rw (get_elem?-get_or xs i minus_one (omega arith))
      (elim (Option-cases (free_one m (get_or xs i minus_one))) [
        | inl e ↦ rw e
        | inr (m1, e) ↦ rw e (free_loop-entries n (suc i) xs m1 (omega arith))
      ])

free_blocks-blocks :
    (n j : ℕ) (h : FileHeader) (m : BitMap)
    → IsComplete n j h
    → j + n ≤ length h.pointer_block_sectors
    → j + n ≤ length h.indirect_data_sectors
    → free_blocks n j h m ≡ free_all (blocks n j h) m
unfolding free_blocks free_all block_deallocate
free_blocks-blocks zero j h m c p q = refl
free_blocks-blocks (suc n) j h m c p q =
    let (b, eb, full, room) = c j (omega arith) (omega arith) in
    let rest = free_blocks-blocks n (suc j) h in
    rw
      (
        get_elem?-get_or h.pointer_block_sectors j minus_one (omega arith),
        get_elem?-get_or h.indirect_data_sectors j none (omega arith),
        eb,
      )
      (elim (Option-cases (free_one m (get_or h.pointer_block_sectors j minus_one))) [
        | inl e ↦ rw e
        | inr (m1, e) ↦
            rw
              (
                e,
                free_all-append (entries b.num_sectors 0 b.data_sectors) (blocks n (suc j) h) m1,
                free_loop-entries b.num_sectors 0 b.data_sectors m1 (omega (arith, full, room)),
              )
              (elim (Option-cases (free_all (entries b.num_sectors 0 b.data_sectors) m1)) [
                | inl e2 ↦ rw e2
                | inr (m2, e2) ↦ rw e2 (
                    rest m2 (λ i lo hi. c i (omega arith) (omega arith)) (omega arith)
                      (omega arith))
              ])
      ])

deallocate-sectors_of :
    (h : FileHeader) (m : BitMap)
    → direct_count h.num_sectors ≤ length h.direct_data_sectors
    → IsComplete (indirect_blocks h.num_sectors) 0 h
    → indirect_blocks h.num_sectors ≤ length h.pointer_block_sectors
    → indirect_blocks h.num_sectors ≤ length h.indirect_data_sectors
    → deallocate h m ≡ free_all (sectors_of h) m
unfolding deallocate
deallocate-sectors_of h m d c p q =
    let n : ℕ = direct_count h.num_sectors in
    let k : ℕ = indirect_blocks h.num_sectors in
    rw
      (
        free_all-append (entries n 0 h.direct_data_sectors) (blocks k 0 h) m,
        free_loop-entries n 0 h.direct_data_sectors m (omega arith),
      )
      (elim (Option-cases (free_all (entries n 0 h.direct_data_sectors) m)) [
        | inl e ↦ rw e
        | inr (m1, e) ↦ rw e (free_blocks-blocks k 0 h m1 c (omega arith) (omega arith))
      ])

-- A header that Allocate filled with sectors of the map is given back whole.
release :
    (h h' : FileHeader) (m m' : BitMap) (file_size : ℕ)
    → IsValid m
    → indirect_blocks (total_sectors file_size) ≤ num_in_direct
    → sectors_taken file_size ≤ free_bits m
    → Allocated h m file_size h' m'
    → (m'' : BitMap) × (deallocate h' m' ≡ some m'')
      × (free_bits m ≡ sectors_taken file_size + free_bits m')
      × (m''.num_bits ≡ m.num_bits)
      × ((j : ℕ) → is_set m'' j ≡ is_set m j)
release h h' m m' file_size v fits enough al =
    let (ks, t, ek, lk) = al.taken enough in
    let (m'', e2, v2, s2, b2) = free_all-Takes ks m m' v t in
    (
      m'',
      deallocate-sectors_of h' m' (ground (arith, al.sectors, al.direct))
            (rw al.sectors al.complete) (rw al.sectors (omega (arith, al.pointers)))
            (rw al.sectors (omega (arith, al.indirect)))
          ∙ rw ek e2,
      omega (arith, Takes-free_bits ks m m' t),
      s2,
      b2,
    )

length-blocks : (n j : ℕ) (h : FileHeader) → IsComplete n j h → length (blocks n j h) ≡ 32 * n
length-blocks zero j h c = refl
length-blocks (suc n) j h c =
    let (b, eb, full, room) = c j (omega arith) (omega arith) in
    let rest = length-blocks n (suc j) h (λ i lo hi. c i (omega arith) (omega arith)) in
    rw eb (
      omega (
        arith,
        length-append (entries b.num_sectors 0 b.data_sectors) (blocks n (suc j) h),
        length-slice b.num_sectors 0 b.data_sectors minus_one,
        full,
        rest,
      ))

length-sectors_of :
    (h h' : FileHeader) (m m' : BitMap) (file_size : ℕ)
    → Allocated h m file_size h' m'
    → length (sectors_of h') ≡ sectors_taken file_size
length-sectors_of h h' m m' file_size al =
    let n : ℕ = h'.num_sectors in
    omega (
      arith,
      length-append (entries (direct_count n) 0 h'.direct_data_sectors)
          (blocks (indirect_blocks n) 0 h'),
      length-slice (direct_count n) 0 h'.direct_data_sectors minus_one,
      length-blocks (indirect_blocks n) 0 h' (rw al.sectors al.complete),
      ap direct_count al.sectors,
      ap indirect_blocks al.sectors,
    )

module _ (blank : List ℤ) (h : FileHeader) (m : BitMap) (file_size : ℕ) (v : IsValid m)
    (a : HasArrays blank h) (small : file_size < 2 ^ 31)
    (fits : indirect_blocks (total_sectors file_size) ≤ num_in_direct) where
  -- On a valid map and a header with its arrays, for a size below 2^31 that takes at most 13
  -- indirect blocks: when the map holds all the sectors that the loops of Allocate ask for,
  -- Allocate returns true and takes that many bits, and Deallocate of the result completes and
  -- gives every bit its value back.
  pub deallocate-allocate :
      sectors_taken file_size ≤ free_bits m
      → (h' : FileHeader) × (m' : BitMap) × (m'' : BitMap) × (allocate blank h m file_size
          ≡ some (true, h', m'))
        × (deallocate h' m' ≡ some m'')
        × (free_bits m ≡ sectors_taken file_size + free_bits m')
        × (m''.num_bits ≡ m.num_bits)
        × ((j : ℕ) → is_set m'' j ≡ is_set m j)
  deallocate-allocate enough =
      let (h', m', e, al) =
        allocate_lem blank h m file_size v a small fits
          (omega (arith, total-le-taken file_size small, enough)) in
      let (m'', ed, count, size, bits) = release h h' m m' file_size v fits enough al in
      (h', m', m'', e, ed, count, size, bits)

  -- On a valid map and a header with its arrays, for a size below 2^31 that takes at most 13
  -- indirect blocks: with clear bits enough for `numSectors`, which is all that Allocate tests,
  -- and too few for the full blocks that it fills, Allocate still returns true, and the sectors of
  -- the header are not bits that were taken from the map.
  pub allocate_overcommits :
      total_sectors file_size ≤ free_bits m
      → free_bits m < sectors_taken file_size
      → (h' : FileHeader) × (m' : BitMap) × (allocate blank h m file_size ≡ some (true, h', m'))
        × (¬ ((ks : List ℕ) × Takes m ks m' × (sectors_of h' ≡ map pos ks)))
  allocate_overcommits some_free few =
      let (h', m', e, al) = allocate_lem blank h m file_size v a small fits some_free in
      (
        h',
        m',
        e,
        λ (ks, t, ek). omega (
          arith,
          Takes-free_bits ks m m' t,
          ap length ek,
          length-map ks pos,
          length-sectors_of h h' m m' file_size al,
          few,
        ),
      )

indirect_answer-ne :
    (h : FileHeader) (offset : ℕ) (s : ℤ) → indirect_answer h offset ≢ some (sector s)
unfolding indirect_answer block_byte_to_sector
indirect_answer-ne h offset s = ground arith

direct_answer :
    (o : Option ℤ) (s : ℤ) → ((do d ← o; some (sector d)) ≡ some (sector s)) ↔ (o ≡ some s)
direct_answer none s = ((λ e. cc), (λ e. cc))
direct_answer (some d) s = ((λ e. cc), (λ e. cc))

-- A sector comes back for the first four sectors of the file only, and is the one that the header
-- holds there: from byte 512 on the function ends with no `return`.
pub byte_to_sector-sector :
    (h : FileHeader) (offset : ℕ) (s : ℤ)
    → (byte_to_sector h offset ≡ some (sector s))
      ↔ ((offset < 512) × (get_elem? h.direct_data_sectors (offset / 128) ≡ some s))
unfolding byte_to_sector
byte_to_sector-sector h offset s =
    let d = direct_answer (get_elem? h.direct_data_sectors (offset / 128)) s in
    elim (Bool-cases (ltb (offset / 128) 4)) [
      | inl t ↦ (rw t (λ e. (omega (arith, ltb→lt (offset / 128) 4 t), d.0 e)), rw t (λ e. d.1 e.1))
      | inr t ↦ (
        rw t (λ e. absurd (indirect_answer-ne h offset s e)),
        λ e. cc (lt→ltb (offset / 128) 4 (omega (arith, e.0)), t),
      )
    ]
