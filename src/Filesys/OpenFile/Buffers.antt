-- ===== src/Filesys/OpenFile/Buffers.antt =====
-- Copies into a buffer.
use cs270hw.Base.{
  ℕ, zero, suc, ◌+◌, ◌-◌, ◌<◌, ◌≤◌, ◌≡◌, ◌∙◌, refl, ap, Bool-cases, inl, inr, true, false, ◌&&◌,
  some, List, [], ◌∷◌, ◌++◌, length, length-append, length-take, length-drop, get_or, take, drop,
  slice, arith, ltb, leb, ltb→lt, ◌⊎◌, if◌then◌else◌,
}
use cs270hw.Filesys.OpenFile.{blit}

pub get_or-append :
    (xs ys : List ℕ) (j : ℕ)
    → get_or (xs ++ ys) j 0
      ≡ (if ltb j (length xs) then get_or xs j 0 else get_or ys (j - length xs) 0)
get_or-append [] ys j = ground arith
get_or-append (x ∷ xs) ys zero = ground arith
get_or-append (x ∷ xs) ys (suc j) = ground (arith, get_or-append xs ys j)

get_or-take : (n : ℕ) (xs : List ℕ) (j : ℕ) → j < n → get_or (take n xs) j 0 ≡ get_or xs j 0
get_or-take zero xs j h = absurd (omega arith)
get_or-take (suc n) [] j h = refl
get_or-take (suc n) (x ∷ xs) zero h = refl
get_or-take (suc n) (x ∷ xs) (suc j) h = get_or-take n xs j (omega arith)

get_or-drop : (n : ℕ) (xs : List ℕ) (j : ℕ) → get_or (drop n xs) j 0 ≡ get_or xs (n + j) 0
get_or-drop zero xs j = ap (λ k. get_or xs k 0) (omega arith)
get_or-drop (suc n) [] j = refl
get_or-drop (suc n) (x ∷ xs) j =
    let e : suc (n + j) ≡ suc n + j = omega arith in
    get_or-drop n xs j ∙ ap (λ k. get_or (x ∷ xs) k 0) e

pub get_or-slice :
    (n i : ℕ) (xs : List ℕ) (j : ℕ) → j < n → get_or (slice n i xs 0) j 0 ≡ get_or xs (i + j) 0
get_or-slice zero i xs j h = absurd (omega arith)
get_or-slice (suc n) i xs zero h = ap (λ k. get_or xs k 0) (omega arith)
get_or-slice (suc n) i xs (suc j) h =
    get_or-slice n (suc i) xs j (omega arith) ∙ ap (λ k. get_or xs k 0) (omega arith)

-- the parts of the copy
parts :
    (dst : List ℕ) (i : ℕ) (src : List ℕ) (j : ℕ)
    → length (take i dst) ≡ i
    → get_or (take i dst ++ (src ++ drop (i + length src) dst)) j 0
      ≡ (if leb i j && ltb j (i + length src) then get_or src (j - i) 0 else get_or dst j 0)
parts dst i src j size =
    let tail = drop (i + length src) dst in
    let outer = get_or-append (take i dst) (src ++ tail) j in
    let inner = get_or-append src tail (j - i) in
    let after = get_or-drop (i + length src) dst (j - i - length src) in
    outer
    ∙ rw size (elim (Bool-cases (ltb j i)) [
      | inl y ↦
          let test : (leb i j && ltb j (i + length src)) ≡ false = ground (arith, y) in
          rw (y, test) (get_or-take i dst j (ground (arith, y)))
      | inr n ↦ rw n (
          inner ∙ elim (Bool-cases (ltb (j - i) (length src))) [
            | inl y ↦
                let test : (leb i j && ltb j (i + length src)) ≡ true = ground (arith, n, y) in
                rw (y, test) refl
            | inr m ↦
                let test : (leb i j && ltb j (i + length src)) ≡ false = ground (arith, n, m) in
                let k : i + length src + (j - i - length src) ≡ j = ground (arith, n, m) in
                rw (m, test) (after ∙ ap (λ k. get_or dst k 0) k)
          ])
    ])

-- A copy that fits gives a buffer of the same length, with the bytes of the source in their place.
pub blit_lem :
    (dst : List ℕ) (i : ℕ) (src : List ℕ)
    → i + length src ≤ length dst
    → (r : List ℕ) × (blit dst i src ≡ some r)
      × (length r ≡ length dst)
      × ((j : ℕ)
          → get_or r j 0
            ≡ (if leb i j && ltb j (i + length src) then get_or src (j - i) 0 else get_or dst j 0))
blit_lem dst i src fits =
    let tail = drop (i + length src) dst in
    let size : length (take i dst) ≡ i = omega (arith, length-take i dst) in
    let fit : leb (i + length src) (length dst) ≡ true = ground arith in
    (
      take i dst ++ (src ++ tail),
      rw fit refl,
      omega (
        arith,
        length-append (take i dst) (src ++ tail),
        length-append src tail,
        length-drop (i + length src) dst,
      ),
      λ j. parts dst i src j size,
    )

-- The test of a position between two others.
pub between : (i j n : ℕ) → i ≤ j → j < i + n → (leb i j && ltb j (i + n)) ≡ true
between i j n lo hi = ground arith

pub outside : (i n j : ℕ) → (leb i j && ltb j (i + n)) ≡ false → (j < i) ⊎ (i + n ≤ j)
outside i n j t = elim (Bool-cases (ltb j i)) [
  | inl y ↦ inl (ltb→lt j i y)
  | inr z ↦ inr (ground (arith, t, z))
]

pub not_between : (i j n : ℕ) → (j < i) ⊎ (i + n ≤ j) → (leb i j && ltb j (i + n)) ≡ false
not_between i j n (inl b) = ground arith
not_between i j n (inr a) = ground arith
