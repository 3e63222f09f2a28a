-- ===== src/Threads/LinkedList/Insert.antt =====
-- SortedInsert puts the element behind every element whose key is not greater.
use cs270hw.Base.{
  ℕ, zero, suc, ◌<◌, ◌≡◌, ◌∙◌, ap, refl, inl, inr, Bool, true, false, some, List, [], ◌∷◌, ◌++◌,
  length, arith, ◌==◌, if◌then◌else◌, Bool-cases, ltb,
}
use cs270hw.Threads.LinkedList.{Ptr, Heap, write, set_next, link_between, insert_loop}
use cs270hw.Threads.LinkedList.Chain.{
  Cell, element, last_ptr, has, Distinct, Chain, Chain-write, write_other, write_same, set_next_lem,
}

-- the place of a new element in a sequence
abbrev pub place : Cell → List Cell → List Cell
place c [] = c ∷ []
place c (d ∷ ds) = let rest = place c ds in if ltb c.key d.key then c ∷ d ∷ ds else d ∷ rest

pub place-front :
    (c d : Cell) (ds : List Cell) → ltb c.key d.key ≡ true → place c (d ∷ ds) ≡ c ∷ d ∷ ds
place-front c d ds h = rw (h, place) refl

pub place-later :
    (c d : Cell) (ds : List Cell) → ltb c.key d.key ≡ false → place c (d ∷ ds) ≡ d ∷ place c ds
place-later c d ds h = rw (h, place) refl

pub last-place : (c m : Cell) (ms : List Cell) → last_ptr (m ∷ place c ms) ≡ last_ptr (place c ms)
last-place c m [] = refl
last-place c m (x ∷ xs) = elim (Bool-cases (ltb c.key x.key)) [
  | inl y ↦ rw (place-front c x xs y) refl
  | inr n ↦ rw (place-later c x xs n) refl
]

-- The walk behind `d`: it placed the element, and the heap holds the new chain and is the old one
-- elsewhere; or it came to the end, and the element belongs there.
pub data Walked (h : Heap) (c d : Cell) (ds : List Cell) : Bool × Heap → Type 0 where
  placed :
      (h' : Heap)
      → Chain h' (d ∷ place c ds)
      → last_ptr (place c ds) ≡ last_ptr (d ∷ ds)
      → ((q : Ptr) → has q (d ∷ ds) ≡ false → (q == c.ptr) ≡ false → h' q ≡ h q)
      → Walked h c d ds (true, h')
  at_end : place c ds ≡ ds ++ (c ∷ []) → Walked h c d ds (false, h)

module _ (c : Cell) where
  -- the two writes that put the element between `d` and `m`
  between :
      (h : Heap) (d m : Cell) (ms : List Cell)
      → Chain h (d ∷ m ∷ ms)
      → (c.ptr == 0) ≡ false
      → h c.ptr ≡ some (element c 0)
      → has c.ptr (d ∷ m ∷ ms) ≡ false
      → Distinct (d ∷ m ∷ ms)
      → (h' : Heap) × (link_between h d.ptr c.ptr m.ptr ≡ some (true, h'))
        × Chain h' (d ∷ c ∷ m ∷ ms)
        × ((q : Ptr) → has q (d ∷ m ∷ ms) ≡ false → (q == c.ptr) ≡ false → h' q ≡ h q)
  unfolding link_between
  between h d m ms (nzd, atd, ch) nz at out (dis, diss) =
      let h1 : Heap = write h c.ptr (some (element c m.ptr)) in
      let h2 : Heap = write h1 d.ptr (some (element d c.ptr)) in
      let other : (d.ptr == c.ptr) ≡ false = ground arith in
      let other' : (c.ptr == d.ptr) ≡ false = ground arith in
      let at1 : h1 d.ptr ≡ some (element d m.ptr) = write_other h c.ptr d.ptr _ other ∙ atd in
      let out' : has c.ptr (m ∷ ms) ≡ false = ground arith in
      (
        h2,
        rw
            (
              set_next_lem h c.ptr m.ptr (element c 0) at,
              set_next_lem h1 d.ptr c.ptr (element d m.ptr) at1,
            )
            refl,
        (
          nzd,
          write_same h1 d.ptr _,
          (
            nz,
            write_other h1 d.ptr c.ptr _ other' ∙ write_same h c.ptr _,
            Chain-write h1 (m ∷ ms) d.ptr _ dis (Chain-write h (m ∷ ms) c.ptr _ out' ch),
          ),
        ),
        λ q i n. write_other h1 d.ptr q _ (ground arith) ∙ write_other h c.ptr q _ n,
      )

  -- The walk from `m` on is one from `d` on, when the element does not belong between them.
  walk_on :
      (h : Heap) (d m : Cell) (ms : List Cell) {r : Bool × Heap}
      → Chain h (d ∷ m ∷ ms)
      → (d.ptr == c.ptr) ≡ false
      → has d.ptr (m ∷ ms) ≡ false
      → ltb c.key m.key ≡ false
      → Walked h c m ms r
      → Walked h c d (m ∷ ms) r
  walk_on h d m ms (nzd, atd, ch) other out more (placed h' ch' last same) =
      let later = place-later c m ms more in
      placed h' (rw later (nzd, same d.ptr out other ∙ atd, ch'))
        (rw later (last-place c m ms ∙ last)) (λ q i n. same q (ground arith) n)
  walk_on h d m ms chd other out more (at_end eq) =
      at_end (place-later c m ms more ∙ ap (λ x. m ∷ x) eq)

  pub insert_loop_lem :
      (fuel : ℕ) (h : Heap) (d : Cell) (ds : List Cell)
      → length ds < fuel
      → Chain h (d ∷ ds)
      → (c.ptr == 0) ≡ false
      → h c.ptr ≡ some (element c 0)
      → has c.ptr (d ∷ ds) ≡ false
      → Distinct (d ∷ ds)
      → (r : Bool × Heap) × (insert_loop fuel h d.ptr c.ptr c.key ≡ some r) × Walked h c d ds r
  unfolding insert_loop
  insert_loop_lem zero h d ds enough ch nz at out dis = absurd (omega arith)
  insert_loop_lem (suc fuel) h d [] enough (nzd, atd, ch) nz at out dis =
      ((false, h), rw (atd, insert_loop) refl, at_end refl)
  insert_loop_lem (suc fuel) h d (m ∷ ms) enough (nzd, atd, ch) nz at out (dis, diss) =
      let (nzm, atm, chm) = ch in
      elim (Bool-cases (ltb c.key m.key)) [
        | inl less ↦
            let (h', e, ch', same) = between h d m ms (nzd, atd, ch) nz at out (dis, diss) in
            let front = place-front c m ms less in
            (
              (true, h'),
              rw (atd, nzm, atm, less, insert_loop) e,
              placed h' (rw front ch') (rw front refl) same,
            )
        | inr more ↦
            let (r, e, w) =
              insert_loop_lem fuel h m ms (omega arith) ch nz at (ground arith) diss in
            (
              r,
              rw (atd, nzm, atm, more, insert_loop) e,
              walk_on h d m ms (nzd, atd, ch) (ground arith) dis more w,
            )
      ]

module _ (c : Cell) where
  -- the write that puts the element behind the last one
  pub behind_last :
      (h : Heap) (d : Cell) (ds : List Cell)
      → Chain h (d ∷ ds)
      → (c.ptr == 0) ≡ false
      → h c.ptr ≡ some (element c 0)
      → has c.ptr (d ∷ ds) ≡ false
      → Distinct (d ∷ ds)
      → (h' : Heap) × (set_next h (last_ptr (d ∷ ds)) c.ptr ≡ some h')
        × Chain h' ((d ∷ ds) ++ (c ∷ []))
        × ((q : Ptr) → has q (d ∷ ds) ≡ false → h' q ≡ h q)
  behind_last h d [] (nzd, atd, ch) nz at out dis = (
    write h d.ptr (some (element d c.ptr)),
    set_next_lem h d.ptr c.ptr (element d 0) atd,
    (nzd, write_same h d.ptr _, (nz, write_other h d.ptr c.ptr _ (ground arith) ∙ at, tt)),
    λ q n. write_other h d.ptr q _ (ground arith),
  )
  behind_last h d (m ∷ ms) (nzd, atd, ch) nz at out (dis, diss) =
      let (h', e, ch', same) = behind_last h m ms ch nz at (ground arith) diss in
      (h', e, (nzd, same d.ptr dis ∙ atd, ch'), λ q n. same q (ground arith))

pub last-append : (cs : List Cell) (c : Cell) → last_ptr (cs ++ (c ∷ [])) ≡ c.ptr
last-append [] c = refl
last-append (d ∷ []) c = refl
last-append (d ∷ e ∷ es) c = last-append (e ∷ es) c
