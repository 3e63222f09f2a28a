-- ===== src/BitMap/Takes.antt =====
-- Several calls of Find in a row: which bits they take, and how freeing these bits gives the map
-- back. The file system takes its sectors and the memory manager its pages this way.
use cs270hw.Base.{
  ℕ, suc, ◌+◌, ◌<◌, ◌≡◌, inl, inr, refl, ◌∙◌, ap, Bool, true, false, ◌||◌, Option, none, some, List,
  [], ◌∷◌, ◌++◌, map, arith, ◌==◌, if◌then◌else◌, length, ◌>>=◌, ◌>>◌, assert,
}
use cs270hw.Base.Int.{ℤ, pos}
use cs270hw.BitMap.{BitMap, find, test, clear}
use cs270hw.BitMap.Bits.{IsValid, is_set, Changes, test_lem, clear_lem}
use cs270hw.BitMap.Laws.{find_lem}
use cs270hw.BitMap.Count.{free_bits, Found-free_bits}

-- `m'` is `m` after the bits of the list, clear until then, were set one by one.
abbrev pub Takes : BitMap → List ℕ → BitMap → Type 0
Takes m [] m' = m' ≡ m
Takes m (k ∷ ks) m' =
    (m1 : BitMap) × (k < m.num_bits)
    × (is_set m k ≡ false)
    × Changes m k true m1
    × (suc (free_bits m1) ≡ free_bits m)
    × Takes m1 ks m'

abbrev pub mem : ℕ → List ℕ → Bool
mem j [] = false
mem j (k ∷ ks) = j == k || mem j ks

abbrev pub Distinct : List ℕ → Type 0
Distinct [] = Unit {0}
Distinct (k ∷ ks) = (mem k ks ≡ false) × Distinct ks

-- every bit of the list is in the map and is `b`
abbrev pub AllBits : BitMap → Bool → List ℕ → Type 0
AllBits m b [] = Unit {0}
AllBits m b (k ∷ ks) = (k < m.num_bits) × (is_set m k ≡ b) × AllBits m b ks

-- `Find`, while a bit is clear
pub find-Takes :
    (m : BitMap)
    → IsValid m
    → 0 < free_bits m
    → (k : ℕ) × (m' : BitMap) × (find m ≡ some (pos k, m')) × IsValid m' × Takes m (k ∷ []) m'
find-Takes m v h =
    let (r, e, f) = find_lem m v in
    elim (Found-free_bits m f) [
      | inl full ↦ absurd (omega (arith, full))
      | inr (k, er, hk, ck, ch, cnt) ↦
          (k, r.1, ground arith, ch.valid, (r.1, hk, ck, ch, cnt, refl))
    ]

pub Takes-append :
    (ks ls : List ℕ) (m m1 m' : BitMap) → Takes m ks m1 → Takes m1 ls m' → Takes m (ks ++ ls) m'
Takes-append [] ls m m1 m' t u = rw (← t) u
Takes-append (k ∷ ks) ls m m1 m' (m2, a, b, c, d, t) u =
    (m2, a, b, c, d, Takes-append ks ls m2 m1 m' t u)

pub Takes-IsValid : (ks : List ℕ) (m m' : BitMap) → IsValid m → Takes m ks m' → IsValid m'
Takes-IsValid [] m m' v t = rw t v
Takes-IsValid (k ∷ ks) m m' v (m1, a, b, c, d, t) = Takes-IsValid ks m1 m' c.valid t

pub Takes-size : (ks : List ℕ) (m m' : BitMap) → Takes m ks m' → m'.num_bits ≡ m.num_bits
Takes-size [] m m' t = ap (λ (b : BitMap). b.num_bits) t
Takes-size (k ∷ ks) m m' (m1, a, b, c, d, t) = Takes-size ks m1 m' t ∙ c.size

pub Takes-bits :
    (ks : List ℕ) (m m' : BitMap) (j : ℕ) → Takes m ks m' → is_set m' j ≡ (mem j ks || is_set m j)
Takes-bits [] m m' j t = ap (λ b. is_set b j) t
Takes-bits (k ∷ ks) m m' j (m1, a, b, c, d, t) = ground (arith, Takes-bits ks m1 m' j t, c.bits j)

pub Takes-free_bits :
    (ks : List ℕ) (m m' : BitMap) → Takes m ks m' → free_bits m ≡ length ks + free_bits m'
Takes-free_bits [] m m' t = omega (arith, ap free_bits t)
Takes-free_bits (k ∷ ks) m m' (m1, a, b, c, d, t) = omega (arith, Takes-free_bits ks m1 m' t)

AllBits-before :
    (ks : List ℕ) (m m1 : BitMap) (k : ℕ)
    → Changes m k true m1
    → AllBits m1 false ks
    → AllBits m false ks × (mem k ks ≡ false)
AllBits-before [] m m1 k c h = (tt, refl)
AllBits-before (l ∷ ks) m m1 k c (a, b, h) =
    ground (arith, AllBits-before ks m m1 k c h, c.bits l, c.size)

-- The bits taken were clear before, and no two are the same.
pub Takes-fresh : (ks : List ℕ) (m m' : BitMap) → Takes m ks m' → AllBits m false ks × Distinct ks
Takes-fresh [] m m' t = (tt, tt)
Takes-fresh (k ∷ ks) m m' (m1, a, b, c, d, t) =
    let (all, dist) = Takes-fresh ks m1 m' t in
    let (before, new) = AllBits-before ks m m1 k c all in ((a, b, before), (new, dist))

pub Takes-set : (ks : List ℕ) (m m' : BitMap) → Takes m ks m' → AllBits m' true ks
Takes-set [] m m' t = tt
Takes-set (k ∷ ks) m m' (m1, a, b, c, d, t) = (
  omega (arith, Takes-size ks m1 m' t, c.size),
  ground (arith, Takes-bits ks m1 m' k t, c.bits k),
  Takes-set ks m1 m' t,
)

-- `ASSERT(map->Test(s)); map->Clear(s);`
unfoldable pub free_one : BitMap → ℤ → Option BitMap
free_one m s = do b ← test m s; assert b; clear m s

-- the same for each item of a list
unfoldable pub free_all : List ℤ → BitMap → Option BitMap
free_all [] m = some m
free_all (s ∷ ss) m = do m' ← free_one m s; free_all ss m'

pub free_all-append :
    (ss ts : List ℤ) (m : BitMap) → free_all (ss ++ ts) m ≡ (do m' ← free_all ss m; free_all ts m')
unfolding free_all
free_all-append [] ts m = refl
free_all-append (s ∷ ss) ts m =
    elim (free_one m s)
      as (λ o.
        (o >>= λ m'. free_all (ss ++ ts) m')
        ≡ ((o >>= λ m'. free_all ss m') >>= λ m'. free_all ts m')) [
          | none ↦ refl
          | some m1 ↦ free_all-append ss ts m1
        ]

AllBits-after :
    (ks : List ℕ) (m m1 : BitMap) (k : ℕ)
    → Changes m k false m1
    → mem k ks ≡ false
    → AllBits m true ks
    → AllBits m1 true ks
AllBits-after [] m m1 k c n h = tt
AllBits-after (l ∷ ks) m m1 k c n (a, b, h) =
    ground (arith, AllBits-after ks m m1 k c, h, c.bits l, c.size)

pub free_all_lem :
    (ks : List ℕ) (m : BitMap)
    → IsValid m
    → Distinct ks
    → AllBits m true ks
    → (m' : BitMap) × (free_all (map pos ks) m ≡ some m')
      × IsValid m'
      × (m'.num_bits ≡ m.num_bits)
      × ((j : ℕ) → is_set m' j ≡ (if mem j ks then false else is_set m j))
unfolding free_all free_one
free_all_lem [] m v d h = (m, refl, v, refl, λ j. refl)
free_all_lem (k ∷ ks) m v (n, d) (a, b, h) =
    let (m1, e1, c) = clear_lem m k v a in
    let (m2, e2, v2, s2, b2) = free_all_lem ks m1 c.valid d (AllBits-after ks m m1 k c n h) in
    (m2, rw (test_lem m k v a, b, e1) e2, v2, s2 ∙ c.size, λ j. ground (arith, b2 j, c.bits j))

-- Freeing what was taken gives every bit its value back.
pub free_all-Takes :
    (ks : List ℕ) (m m' : BitMap)
    → IsValid m
    → Takes m ks m'
    → (m'' : BitMap) × (free_all (map pos ks) m' ≡ some m'')
      × IsValid m''
      × (m''.num_bits ≡ m.num_bits)
      × ((j : ℕ) → is_set m'' j ≡ is_set m j)
free_all-Takes ks m m' v t =
    let (m2, e, v2, s, b) =
      free_all_lem ks m' (Takes-IsValid ks m m' v t) (Takes-fresh ks m m' t).1
        (Takes-set ks m m' t) in
    (m2, e, v2, s ∙ Takes-size ks m m' t, λ j. b j ∙ restored j)
  where
    not_before : (ls : List ℕ) (j : ℕ) → AllBits m false ls → mem j ls ≡ true → is_set m j ≡ false
    not_before [] j h e = cc
    not_before (l ∷ ls) j (a, b, h) e = ground (arith, not_before ls j h)

    restored : (j : ℕ) → (if mem j ks then false else is_set m' j) ≡ is_set m j
    restored j = ground (arith, Takes-bits ks m m' j t, not_before ks j (Takes-fresh ks m m' t).0)

-- `Find` always returns; while a bit is clear it takes one.
pub find_any :
    (m : BitMap)
    → IsValid m
    → (s : ℤ) × (m1 : BitMap) × (find m ≡ some (s, m1))
      × IsValid m1
      × (0 < free_bits m → (k : ℕ) × (s ≡ pos k) × Takes m (k ∷ []) m1)
find_any m v =
    let (r, e, f) = find_lem m v in
    (
      r.0,
      r.1,
      e,
      elim (Found-free_bits m f) [
        | inl full ↦ rw (full.2) v
        | inr (k, er, hk, ck, ch, cnt) ↦ ch.valid
      ],
      λ h. elim (Found-free_bits m f) [
        | inl full ↦ absurd (omega (arith, full))
        | inr (k, er, hk, ck, ch, cnt) ↦ (k, er, (r.1, hk, ck, ch, cnt, refl))
      ],
    )
