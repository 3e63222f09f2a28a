-- ===== src/Filesys/FileHeader/Lookup.antt =====
-- ByteToSector on every offset of the direct sectors and of the first indirect block.
use cs270hw.Base.{
  ℕ, zero, suc, ◌-◌, ◌*◌, ◌/◌, ◌<◌, ◌≤◌, ◌≡◌, refl, Bool-cases, inl, inr, true, false, none, some,
  List, [], ◌∷◌, length, get_elem?, get_or, get_elem?-get_or, if◌then◌else◌, ltb, arith,
}
use cs270hw.Base.Int.{ℤ, minus_one}
use cs270hw.Filesys.FileHeader.{
  Block, FileHeader, sector, no_value, byte_to_sector, indirect_answer, block_byte_to_sector,
  pointer_sectors,
}

get_elem?-beyond : (xs : List ℤ) (i : ℕ) → length xs ≤ i → get_elem? xs i ≡ none
get_elem?-beyond [] i h = refl
get_elem?-beyond (x ∷ xs) zero h = absurd (omega arith)
get_elem?-beyond (x ∷ xs) (suc i) h = get_elem?-beyond xs i (omega arith)

module _ (h : FileHeader) (b : Block) (offset : ℕ)
    (first : get_elem? h.indirect_data_sectors 0 ≡ some (some b))
    (room : length b.data_sectors ≡ pointer_sectors) (near : offset < 132 * 128)
    (behind : 512 ≤ offset) where
  -- what the second branch comes to
  indirect_answer_lem : indirect_answer h offset ≡ (if ltb offset 4480 then some no_value else none)
  unfolding indirect_answer block_byte_to_sector
  indirect_answer_lem =
      let j : (offset / 128 - 4) / 128 ≡ 0 = omega arith in
      let k : ℕ = (offset - 512 - 0) / 128 in
      elim (Bool-cases (ltb offset 4480)) [
        | inl y ↦
            let less : k < length b.data_sectors = ground (arith, y) in
            let there = get_elem?-get_or b.data_sectors k minus_one less in
            rw (j, first, there, y) refl
        | inr n ↦
            let past : length b.data_sectors ≤ k = ground (arith, n) in
            let gone = get_elem?-beyond b.data_sectors k past in rw (j, first, gone, n) refl
      ]

-- For a header with its array of four direct sectors and a first indirect block with its array of 31:
-- ByteToSector of an offset below 512 gives the direct sector of that byte. From there to byte 4480,
-- where the first block ends, it ends without a return. Up to 132 sectors it then reads past the array
-- of the first block, since it looks for the block by sectors of 128 and not of 31.
pub byte_to_sector-blocks :
    (h : FileHeader) (b : Block) (offset : ℕ)
    → length h.direct_data_sectors ≡ 4
    → get_elem? h.indirect_data_sectors 0 ≡ some (some b)
    → length b.data_sectors ≡ pointer_sectors
    → offset < 132 * 128
    → byte_to_sector h offset ≡ (
        if ltb offset 512
        then some (sector (get_or h.direct_data_sectors (offset / 128) minus_one))
        else if ltb offset 4480
        then some no_value
        else none)
unfolding byte_to_sector
byte_to_sector-blocks h b offset direct first room near = elim (Bool-cases (ltb offset 512)) [
  | inl y ↦
      let test : ltb (offset / 128) 4 ≡ true = ground (arith, y) in
      let less : offset / 128 < length h.direct_data_sectors = ground (arith, y) in
      let there = get_elem?-get_or h.direct_data_sectors (offset / 128) minus_one less in
      rw (test, there, y) refl
  | inr n ↦
      let test : ltb (offset / 128) 4 ≡ false = ground (arith, n) in
      rw (test, n) (indirect_answer_lem h b offset first room near (ground (arith, n)))
]
