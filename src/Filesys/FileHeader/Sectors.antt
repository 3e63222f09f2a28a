-- ===== src/Filesys/FileHeader/Sectors.antt =====
-- The sectors that a header holds, and how the loops of Allocate and Deallocate go through them.
use cs270hw.Base.{
  ℕ, zero, suc, ◌+◌, ◌≤◌, ◌<◌, ◌≡◌, refl, inl, inr, ◌∙◌, some, List, [], ◌∷◌, map, arith, ltb,
  ◌>>=◌, length, get_or, set, slice, length-set, get_or-set, Option-cases, Bool-cases,
}
use native.Mathlib.Numerals.{add-one}
use cs270hw.Base.Int.{ℤ, pos, minus_one}
use cs270hw.BitMap.{BitMap, find}
use cs270hw.BitMap.Bits.{IsValid}
use cs270hw.BitMap.Count.{free_bits}
use cs270hw.BitMap.Takes.{Takes, Takes-append, Takes-free_bits, find_any}
use cs270hw.Filesys.FileHeader.{Block, put_sector, direct_loop, fill}

-- the `n` entries of an array of sectors from `i` on
abbrev pub entries : ℕ → ℕ → List ℤ → List ℤ
entries n i xs = slice n i xs minus_one

-- What one of the loops over an array has done: entries `i` to `i + n` hold the results of Find,
-- which are bits taken from the map when it has enough.
pub record Filled (n i : ℕ) (xs : List ℤ) (m : BitMap) (ys : List ℤ) (m' : BitMap) : Type 0 where
  pub valid : IsValid m'
  pub size : length ys ≡ length xs
  pub before : (j : ℕ) → j < i → get_or ys j minus_one ≡ get_or xs j minus_one
  pub taken : n ≤ free_bits m → (ks : List ℕ) × Takes m ks m' × (entries n i ys ≡ map pos ks)

direct_step :
    (n i : ℕ) (s : ℤ) (xs ys : List ℤ) (m m1 m' : BitMap)
    → i < length xs
    → (0 < free_bits m → (k : ℕ) × (s ≡ pos k) × Takes m (k ∷ []) m1)
    → Filled n (suc i) (set xs i s) m1 ys m'
    → Filled (suc n) i xs m ys m'
direct_step n i s xs ys m m1 m' hi one f = record {
  valid = f.valid;
  size = f.size ∙ length-set xs i s;
  before = λ j hj. f.before j (omega arith) ∙ ground (arith, get_or-set xs i j s minus_one hi);
  taken = λ h.
      let (k, e, t) = one (omega arith) in
      let (ks, ts, es) = f.taken (omega (arith, Takes-free_bits (k ∷ []) m m1 t)) in
      (
        k ∷ ks,
        Takes-append (k ∷ []) ks m m1 m' t ts,
        ground (arith, e, es, f.before i (omega arith), get_or-set xs i i s minus_one hi),
      );
}

pub direct_loop_lem :
    (n i : ℕ) (xs : List ℤ) (m : BitMap)
    → IsValid m
    → i + n ≤ length xs
    → (ys : List ℤ) × (m' : BitMap) × (direct_loop n i xs m ≡ some (ys, m')) × Filled n i xs m ys m'
unfolding direct_loop
direct_loop_lem zero i xs m v h = (
  xs,
  m,
  refl,
  record { valid = v; size = refl; before = λ j hj. refl; taken = λ _. ([], refl, refl) },
)
direct_loop_lem (suc n) i xs m v h =
    let (s, m1, e1, v1, one) = find_any m v in
    let (ys, m', e2, f) =
      direct_loop_lem n (suc i) (set xs i s) m1 v1 (omega (arith, length-set xs i s)) in
    (ys, m', rw e1 (ground (arith, e2)), direct_step n i s xs ys m m1 m' (omega arith) one f)

-- Filling a block is the same loop over the array of the block.
pub fill-direct_loop :
    (n : ℕ) (b : Block) (m : BitMap)
    → fill n b m ≡ (do
      (ys, m') ← direct_loop n b.num_sectors b.data_sectors m
      some (record { num_sectors = b.num_sectors + n; data_sectors = ys }, m'))
unfolding fill direct_loop put_sector
fill-direct_loop zero b m = ground arith
fill-direct_loop (suc n) b m = elim (Option-cases (find m)) [
  | inl e ↦ rw e
  | inr ((s, m1), e) ↦ elim (Bool-cases (ltb b.num_sectors (length b.data_sectors))) [
    | inl t ↦
        let b1 : Block = record {
          num_sectors = suc b.num_sectors;
          data_sectors = set b.data_sectors b.num_sectors s;
        } in
        let count : suc b.num_sectors + n ≡ b.num_sectors + suc n = omega arith in
        rw (e, t, add-one) (fill-direct_loop n b1 m1 ∙ rw count)
    | inr t ↦ rw (e, t)
  ]
]

pub fill_lem :
    (n : ℕ) (b : Block) (m : BitMap)
    → IsValid m
    → b.num_sectors + n ≤ length b.data_sectors
    → (ys : List ℤ) × (m' : BitMap) × (fill n b m
        ≡ some (record { num_sectors = b.num_sectors + n; data_sectors = ys }, m'))
      × Filled n b.num_sectors b.data_sectors m ys m'
fill_lem n b m v h =
    let (ys, m', e, f) = direct_loop_lem n b.num_sectors b.data_sectors m v h in
    (ys, m', fill-direct_loop n b m ∙ rw e, f)
