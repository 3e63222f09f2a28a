-- ===== src/Filesys/FileHeader/Allocation.antt =====
-- Allocate takes the sectors of a file from the free map, and Deallocate gives them back.
use mathlib.Core.List.{map-append}
use cs270hw.Base.{
  ℕ, ◌+◌, ◌*◌, ◌^◌, ◌≤◌, ◌<◌, ◌≡◌, ◌∙◌, ap, none, some, List, ◌++◌, map, arith, true, false, ltb,
  if◌then◌else◌, length, get_or, lt→ltb, le→ltb, length-append, length-map, length-slice,
  div_round_up,
}
use cs270hw.Base.Int.{ℤ, pos, minus_one}
use cs270hw.BitMap.{BitMap}
use cs270hw.BitMap.Bits.{IsValid}
use cs270hw.BitMap.Count.{free_bits, num_clear_lem}
use cs270hw.BitMap.Takes.{Takes, Takes-append, Takes-free_bits}
use cs270hw.Filesys.FileHeader.{
  Block, FileHeader, sector_size, pointer_sectors, num_in_direct, indirect_blocks, allocate,
}
use cs270hw.Filesys.FileHeader.Sectors.{entries, direct_loop_lem}
use cs270hw.Filesys.FileHeader.Blocks.{blocks, indirect_loop_lem, indirect_blocks_lem}

abbrev pub direct_count : ℕ → ℕ
direct_count n = if ltb 4 n then 4 else n

-- the sectors of a header, in the order in which they were found
abbrev pub sectors_of : FileHeader → List ℤ
sectors_of h =
    entries (direct_count h.num_sectors) 0 h.direct_data_sectors
    ++ blocks (indirect_blocks h.num_sectors) 0 h

-- the arrays of a header and of a block, as they are declared
pub record HasArrays (blank : List ℤ) (h : FileHeader) : Type 0 where
  pub block : length blank ≡ pointer_sectors
  pub direct : length h.direct_data_sectors ≡ 4
  pub pointers : length h.pointer_block_sectors ≡ num_in_direct
  pub indirect : length h.indirect_data_sectors ≡ num_in_direct

-- `numSectors` of a new file of this size
abbrev pub total_sectors : ℕ → ℕ
total_sectors file_size =
    div_round_up file_size sector_size + indirect_blocks (div_round_up file_size sector_size)

-- how many sectors Allocate takes for it
abbrev pub sectors_taken : ℕ → ℕ
sectors_taken file_size =
    direct_count (total_sectors file_size) + 32 * indirect_blocks (total_sectors file_size)

-- every block of the header is there, with its sectors
abbrev pub IsComplete : ℕ → ℕ → FileHeader → Type 0
IsComplete n j h =
    (i : ℕ)
    → j ≤ i
    → i < j + n
    → (b : Block) × (get_or h.indirect_data_sectors i none ≡ some b)
      × (b.num_sectors ≡ pointer_sectors)
      × (length b.data_sectors ≡ pointer_sectors)

pub record Allocated (h : FileHeader) (m : BitMap) (file_size : ℕ) (h' : FileHeader) (m' : BitMap)
    : Type 0 where
  pub valid : IsValid m'
  pub bytes : h'.num_bytes ≡ file_size
  pub sectors : h'.num_sectors ≡ total_sectors file_size
  pub direct : length h'.direct_data_sectors ≡ 4
  pub pointers : length h'.pointer_block_sectors ≡ num_in_direct
  pub indirect : length h'.indirect_data_sectors ≡ num_in_direct
  pub complete : IsComplete (indirect_blocks (total_sectors file_size)) 0 h'
  pub taken :
      sectors_taken file_size ≤ free_bits m
      → (ks : List ℕ) × Takes m ks m'
        × (sectors_of h' ≡ map pos ks)
        × (length ks ≡ sectors_taken file_size)

pub total_small : (file_size : ℕ) → file_size < 2 ^ 31 → total_sectors file_size + 26 < 2 ^ 32
total_small f h = ground (arith, indirect_blocks_lem (div_round_up f sector_size))

module _ (blank : List ℤ) where
  -- On a valid map with fewer clear bits than `numSectors` Allocate returns false and leaves the
  -- map as it was, with the new size and `numSectors` in the header.
  pub allocate_refuses :
      (h : FileHeader) (m : BitMap) (file_size : ℕ)
      → IsValid m
      → free_bits m < total_sectors file_size
      → allocate blank h m file_size
        ≡ some (false, record h { num_bytes = file_size; num_sectors = total_sectors file_size }, m)
  unfolding allocate
  allocate_refuses h m file_size v few =
      rw (num_clear_lem m v, lt→ltb (free_bits m) (total_sectors file_size) few)

  pub allocate_lem :
      (h : FileHeader) (m : BitMap) (file_size : ℕ)
      → IsValid m
      → HasArrays blank h
      → file_size < 2 ^ 31
      → indirect_blocks (total_sectors file_size) ≤ num_in_direct
      → total_sectors file_size ≤ free_bits m
      → (h' : FileHeader) × (m' : BitMap) × (allocate blank h m file_size ≡ some (true, h', m'))
        × Allocated h m file_size h' m'
  unfolding allocate
  allocate_lem h m file_size v a small fits enough =
      let total : ℕ = total_sectors file_size in
      let (xs, m1, e1, f) =
        direct_loop_lem (direct_count total) 0 h.direct_data_sectors m v
          (ground (arith, a.direct)) in
      let h1 : FileHeader = record h {
        num_bytes = file_size;
        num_sectors = total;
        direct_data_sectors = xs;
      } in
      let (h2, m2, e2, g) =
        indirect_loop_lem blank a.block (indirect_blocks total) 0 h1 m1 f.valid
          (total_small file_size small) (omega arith) (omega (arith, a.pointers))
          (omega (arith, a.indirect)) in
      (
        h2,
        m2,
        rw (num_clear_lem m v, le→ltb (free_bits m) (total_sectors file_size) enough, e1, e2),
        record {
          valid = g.valid;
          bytes = g.bytes;
          sectors = g.sectors;
          direct = ap length g.direct ∙ f.size ∙ a.direct;
          pointers = g.pointer_size ∙ a.pointers;
          indirect = g.block_size ∙ a.indirect;
          complete = g.complete;
          taken = λ h.
              let (ks, tk, ek) = f.taken (omega arith) in
              let (rs, tr, er, lr) = g.taken (
                omega (
                  arith,
                  Takes-free_bits ks m m1 tk,
                  ap length ek,
                  length-slice (direct_count total) 0 xs minus_one,
                  length-map ks pos,
                )) in
              (
                ks ++ rs,
                Takes-append ks rs m m1 m2 tk tr,
                rw (g.sectors, g.direct, ek, er, map-append pos ks rs),
                omega (
                  arith,
                  length-append ks rs,
                  lr,
                  ap length ek,
                  length-slice (direct_count total) 0 xs minus_one,
                  length-map ks pos,
                ),
              );
        },
      )
