-- ===== src/Filesys/FileHeader/Blocks.antt =====
-- The indirect blocks of a header: what the loop of Allocate over them does.
use cs270hw.Base.{
  ℕ, zero, suc, ◌+◌, ◌*◌, ◌/◌, ◌^◌, ◌≤◌, ◌<◌, ◌≡◌, refl, ◌∙◌, ap, Option, none, some, List, [], ◌∷◌,
  ◌++◌, map, arith, length, get_or, set, length-set, get_or-set, lt→ltb, ℕ_discrete, length-append,
  length-slice, length-map,
}
use mathlib.Core.List.{map-append}
use cs270hw.Base.Int.{ℤ, pos, minus_one}
use cs270hw.BitMap.{BitMap}
use cs270hw.BitMap.Bits.{IsValid}
use cs270hw.BitMap.Count.{free_bits}
use cs270hw.BitMap.Takes.{Takes, Takes-append, Takes-free_bits, find_any}
use cs270hw.Filesys.FileHeader.{
  Block, FileHeader, pointer_sectors, block_sectors, indirect_blocks, indirect_loop, new_block,
}
use cs270hw.Filesys.FileHeader.Sectors.{entries, fill_lem}

-- The 32-bit unsigned expression, for a header of fewer than 2^32 - 26 sectors.
pub indirect_blocks_lem : (n : ℕ) → n + 26 < 2 ^ 32 → indirect_blocks n ≡ (n + 26) / 31
unfolding indirect_blocks
indirect_blocks_lem n h = omega arith

-- The test for the last block never holds, so each block is given all its 31 sectors.
pub block_sectors_lem :
    (n j : ℕ) → n + 26 < 2 ^ 32 → j < indirect_blocks n → block_sectors n j ≡ pointer_sectors
unfolding block_sectors
block_sectors_lem n j h hj = ground (arith, indirect_blocks_lem n h)

abbrev pub block_list : Option Block → List ℤ
block_list none = []
block_list (some b) = entries b.num_sectors 0 b.data_sectors

-- the sectors of the `n` blocks from `j` on, each behind the sector of its own pointers
abbrev pub blocks : ℕ → ℕ → FileHeader → List ℤ
blocks zero j h = []
blocks (suc n) j h =
    get_or h.pointer_block_sectors j minus_one
    ∷ (block_list (get_or h.indirect_data_sectors j none) ++ blocks n (suc j) h)

-- What the loop has done for the blocks `j` to `j + n`.
pub record FilledBlocks (n j : ℕ) (h : FileHeader) (m : BitMap) (h' : FileHeader) (m' : BitMap)
    : Type 0 where
  pub valid : IsValid m'
  pub bytes : h'.num_bytes ≡ h.num_bytes
  pub sectors : h'.num_sectors ≡ h.num_sectors
  pub direct : h'.direct_data_sectors ≡ h.direct_data_sectors
  pub pointer_size : length h'.pointer_block_sectors ≡ length h.pointer_block_sectors
  pub block_size : length h'.indirect_data_sectors ≡ length h.indirect_data_sectors
  pub pointers_before :
      (i : ℕ)
      → i < j
      → get_or h'.pointer_block_sectors i minus_one ≡ get_or h.pointer_block_sectors i minus_one
  pub blocks_before :
      (i : ℕ)
      → i < j
      → get_or h'.indirect_data_sectors i none ≡ get_or h.indirect_data_sectors i none
  pub complete :
      (i : ℕ)
      → j ≤ i
      → i < j + n
      → (b : Block) × (get_or h'.indirect_data_sectors i none ≡ some b)
        × (b.num_sectors ≡ pointer_sectors)
        × (length b.data_sectors ≡ pointer_sectors)
  pub taken :
      32 * n ≤ free_bits m
      → (ks : List ℕ) × Takes m ks m' × (blocks n j h' ≡ map pos ks) × (length ks ≡ 32 * n)

block_pos :
    (s : ℤ) (k : ℕ) (xs : List ℤ) (ks : List ℕ) (ys : List ℤ) (rs : List ℕ)
    → s ≡ pos k
    → xs ≡ map pos ks
    → ys ≡ map pos rs
    → s ∷ (xs ++ ys) ≡ map pos (k ∷ (ks ++ rs))
block_pos s k xs ks ys rs e f g = rw (e, f, g, map-append pos ks rs)

blocks_step :
    (n j : ℕ) (h h' : FileHeader) (m m1 m2 m' : BitMap) (s : ℤ) (b : Block)
    → j < length h.pointer_block_sectors
    → j < length h.indirect_data_sectors
    → b.num_sectors ≡ pointer_sectors
    → length b.data_sectors ≡ pointer_sectors
    → (0 < free_bits m → (k : ℕ) × (s ≡ pos k) × Takes m (k ∷ []) m1)
    → (31 ≤ free_bits m1
        → (ks : List ℕ) × Takes m1 ks m2
          × (entries pointer_sectors 0 b.data_sectors ≡ map pos ks)
          × (length ks ≡ 31))
    → FilledBlocks n
        (suc j)
        (record h {
          pointer_block_sectors = set h.pointer_block_sectors j s;
          indirect_data_sectors = set h.indirect_data_sectors j (some b);
        })
        m2
        h'
        m'
    → FilledBlocks (suc n) j h m h' m'
blocks_step n j h h' m m1 m2 m' s b hp hb full room one many f = record {
  valid = f.valid;
  bytes = f.bytes;
  sectors = f.sectors;
  direct = f.direct;
  pointer_size = f.pointer_size ∙ length-set h.pointer_block_sectors j s;
  block_size = f.block_size ∙ length-set h.indirect_data_sectors j (some b);
  pointers_before = λ i hi.
      f.pointers_before i (omega arith)
      ∙ ground (arith, get_or-set h.pointer_block_sectors j i s minus_one hp);
  blocks_before = λ i hi.
      f.blocks_before i (omega arith)
      ∙ ground (arith, get_or-set h.indirect_data_sectors j i (some b) none hb);
  complete = λ i lo hi. elim (ℕ_discrete i j) [
    | yes e ↦ (b, ground (arith, e, here), full, room)
    | no e ↦ f.complete i (omega arith) (omega arith)
  ];
  taken = λ enough.
      let (k, ek, tk) = one (omega arith) in
      let (ks, ts, es, ls) = many (omega (arith, Takes-free_bits (k ∷ []) m m1 tk)) in
      let (rs, tr, er, lr) =
        f.taken (omega (arith, Takes-free_bits (k ∷ []) m m1 tk, Takes-free_bits ks m1 m2 ts)) in
      (
        k ∷ (ks ++ rs),
        Takes-append (k ∷ []) (ks ++ rs) m m1 m' tk (Takes-append ks rs m1 m2 m' ts tr),
        rw (pointer, here, full) (block_pos s k _ ks _ rs ek es er),
        omega (arith, length-append ks rs),
      );
}
  where
    here : get_or h'.indirect_data_sectors j none ≡ some b
    here =
        f.blocks_before j (omega arith)
        ∙ ground (arith, get_or-set h.indirect_data_sectors j j (some b) none hb)

    pointer : get_or h'.pointer_block_sectors j minus_one ≡ s
    pointer =
        f.pointers_before j (omega arith)
        ∙ ground (arith, get_or-set h.pointer_block_sectors j j s minus_one hp)

module _ (blank : List ℤ) (room : length blank ≡ pointer_sectors) where
  pub indirect_loop_lem :
      (n j : ℕ) (h : FileHeader) (m : BitMap)
      → IsValid m
      → h.num_sectors + 26 < 2 ^ 32
      → j + n ≤ indirect_blocks h.num_sectors
      → j + n ≤ length h.pointer_block_sectors
      → j + n ≤ length h.indirect_data_sectors
      → (h' : FileHeader) × (m' : BitMap) × (indirect_loop blank n j h m ≡ some (h', m'))
        × FilledBlocks n j h m h' m'
  unfolding indirect_loop new_block
  indirect_loop_lem zero j h m v small hi hp hb = (
    h,
    m,
    refl,
    record {
      valid = v;
      bytes = refl;
      sectors = refl;
      direct = refl;
      pointer_size = refl;
      block_size = refl;
      pointers_before = λ i p. refl;
      blocks_before = λ i p. refl;
      complete = λ i p q. absurd (omega arith);
      taken = λ _. ([], refl, refl, refl);
    },
  )
  indirect_loop_lem (suc n) j h m v small hi hp hb =
      let (s, m1, e1, v1, one) = find_any m v in
      let (ys, m2, e2, f) =
        fill_lem pointer_sectors (record { num_sectors = 0; data_sectors = blank }) m1 v1
          (omega (arith, room)) in
      let b : Block = record { num_sectors = pointer_sectors; data_sectors = ys } in
      let (h', m', e3, g) =
        indirect_loop_lem n (suc j)
          (record h {
            pointer_block_sectors = set h.pointer_block_sectors j s;
            indirect_data_sectors = set h.indirect_data_sectors j (some b);
          })
          m2 f.valid small (omega arith) (omega (arith, length-set h.pointer_block_sectors j s))
          (omega (arith, length-set h.indirect_data_sectors j (some b))) in
      (
        h',
        m',
        rw
            (
              e1,
              lt→ltb j (length h.pointer_block_sectors) (omega arith),
              block_sectors_lem h.num_sectors j small (omega arith),
              e2,
              lt→ltb j (length h.indirect_data_sectors) (omega arith),
            )
            e3,
        blocks_step n j h h' m m1 m2 m' s b (omega arith) (omega arith) refl (f.size ∙ room) one
            (λ enough.
              let (ks, t, e) = f.taken enough in
              (
                ks,
                t,
                e,
                omega (
                  arith,
                  ap length e,
                  length-slice pointer_sectors 0 ys minus_one,
                  length-map ks pos,
                ),
              ))
            g,
      )
