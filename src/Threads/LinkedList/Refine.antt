-- ===== src/Threads/LinkedList/Refine.antt =====
-- The list on the heap implements a queue of keys and items, which knows of no pointers.
use cs270hw.Base.{
  ℕ, ◌≤◌, ◌<◌, ◌≡◌, ◌∙◌, ap, refl, sym, inl, inr, Bool, false, ◌||◌, none, some, List, [], ◌∷◌, map,
  length, length-map, arith, ◌==◌, ==_iff, Bool-cases, ltb,
}
use cs270hw.Threads.LinkedList.{
  Ptr, Heap, Handle, write, set_next, insert_loop, insert_behind, new_element, sorted_insert,
}
use cs270hw.Threads.LinkedList.Chain.{
  Cell, element, first_ptr, has, Distinct, Chain, handle, Chain-write, write_same, set_next_lem,
}
use cs270hw.Threads.LinkedList.Queue.{Entry, enqueue}
use cs270hw.Threads.LinkedList.Insert.{
  place, place-front, place-later, Walked, placed, at_end, insert_loop_lem, behind_last,
  last-append, last-place,
}

abbrev pub entries : List Cell → List (Entry ℕ)
entries cs = map (λ c. (c.key, c.item)) cs

-- The list `l` on the heap holds these entries.
abbrev pub Holds : Heap → Handle → List (Entry ℕ) → Type 0
Holds h l xs = (cs : List Cell) × (l ≡ handle cs) × Chain h cs × Distinct cs × (entries cs ≡ xs)

pub entries-place :
    (c : Cell) (cs : List Cell) → entries (place c cs) ≡ enqueue (c.key, c.item) (entries cs)
entries-place c [] = refl
entries-place c (d ∷ ds) = elim (Bool-cases (ltb c.key d.key)) [
  | inl y ↦ rw (place-front c d ds y, y) refl
  | inr n ↦ rw (place-later c d ds n, n) (ap (λ x. (d.key, d.item) ∷ x) (entries-place c ds))
]

has-place : (q : Ptr) (c : Cell) (cs : List Cell) → has q (place c cs) ≡ (q == c.ptr || has q cs)
has-place q c [] = ground arith
has-place q c (d ∷ ds) = elim (Bool-cases (ltb c.key d.key)) [
  | inl y ↦ rw (place-front c d ds y) refl
  | inr n ↦ rw (place-later c d ds n) (ground (arith, has-place q c ds))
]

pub eq_comm : (p q : ℕ) → (p == q) ≡ (q == p)
eq_comm p q = ground arith

pub place-Distinct :
    (c : Cell) (cs : List Cell) → has c.ptr cs ≡ false → Distinct cs → Distinct (place c cs)
place-Distinct c [] out dis = (refl, tt)
place-Distinct c (d ∷ ds) out (no_d, dis) = elim (Bool-cases (ltb c.key d.key)) [
  | inl y ↦ rw (place-front c d ds y) (out, (no_d, dis))
  | inr n ↦ rw (place-later c d ds n) (
    ground (arith, has-place d.ptr c ds, eq_comm d.ptr c.ptr, out, no_d),
    place-Distinct c ds (ground arith) dis,
  )
]

-- A place that holds nothing is not in a chain.
pub has-free : (h : Heap) (cs : List Cell) (p : Ptr) → Chain h cs → h p ≡ none → has p cs ≡ false
has-free h [] p ch free = refl
has-free h (c ∷ cs) p (nz, at, ch) free = elim (Bool-cases (p == c.ptr)) [
  | inl y ↦ let e = sym at ∙ ap h (sym ((==_iff p c.ptr).0 y)) ∙ free in cc
  | inr n ↦ ground (arith, has-free h cs p ch free)
]

abbrev pub cell : ℕ → ℕ → ℕ → Cell
cell fresh item key = record { ptr = fresh; key = key; item = item }

-- a list with a new element in the heap beside it
module _ (h : Heap) (cs : List Cell) (fresh item key : ℕ) (ch : Chain h cs) (free : h fresh ≡ none)
    (nz : (fresh == 0) ≡ false) where
  abbrev pub with_new : Heap
  with_new = new_element h fresh item key

  pub out_of_list : has fresh cs ≡ false
  out_of_list = has-free h cs fresh ch free

  pub Chain-new : Chain with_new cs
  Chain-new = Chain-write h cs fresh _ out_of_list ch

  pub at_new : with_new fresh ≡ some (element (cell fresh item key) 0)
  at_new = write_same h fresh _

  -- at the front
  pub in_front :
      (h' : Heap) × (set_next with_new fresh (first_ptr cs) ≡ some h')
      × Chain h' (cell fresh item key ∷ cs)
  in_front = (
    write with_new fresh (some (element (cell fresh item key) (first_ptr cs))),
    set_next_lem with_new fresh (first_ptr cs) (element (cell fresh item key) 0) at_new,
    (nz, write_same with_new fresh _, Chain-write with_new cs fresh _ out_of_list Chain-new),
  )

-- behind the first element
insert_behind_lem :
    (fuel : ℕ) (h : Heap) (c d : Cell) (ds : List Cell)
    → length ds < fuel
    → Chain h (d ∷ ds)
    → (c.ptr == 0) ≡ false
    → h c.ptr ≡ some (element c 0)
    → has c.ptr (d ∷ ds) ≡ false
    → Distinct (d ∷ ds)
    → (h' : Heap) × (insert_behind fuel h (handle (d ∷ ds)) c.ptr c.key
        ≡ some (handle (d ∷ place c ds), h'))
      × Chain h' (d ∷ place c ds)
unfolding insert_behind
insert_behind_lem fuel h c d ds enough ch nz at out dis =
    let (r, e, w) = insert_loop_lem c fuel h d ds enough ch nz at out dis in finish r e w
  where
    finish :
        (r : Bool × Heap)
        → insert_loop fuel h d.ptr c.ptr c.key ≡ some r
        → Walked h c d ds r
        → (h' : Heap) × (insert_behind fuel h (handle (d ∷ ds)) c.ptr c.key
            ≡ some (handle (d ∷ place c ds), h'))
          × Chain h' (d ∷ place c ds)
    finish r e (placed h' ch' last same) = (h', rw (e, last-place c d ds, last) refl, ch')
    finish r e (at_end eq) =
        let (h', e', ch', same) = behind_last c h d ds ch nz at out dis in
        (h', rw (e, e', eq, last-append (d ∷ ds) c) refl, rw eq ch')

module _ (h : Heap) (fresh item key : ℕ) (free : h fresh ≡ none) (nz : (fresh == 0) ≡ false) where
  sorted_insert-Chain :
      (fuel : ℕ) (cs : List Cell)
      → length cs ≤ fuel
      → Chain h cs
      → Distinct cs
      → (h' : Heap) × (sorted_insert fuel h (handle cs) fresh item key
          ≡ some (handle (place (cell fresh item key) cs), h'))
        × Chain h' (place (cell fresh item key) cs)
  unfolding sorted_insert
  sorted_insert-Chain fuel [] enough ch dis =
      (new_element h fresh item key, refl, (nz, write_same h fresh _, tt))
  sorted_insert-Chain fuel (d ∷ ds) enough ch dis =
      let out = out_of_list h (d ∷ ds) fresh item key ch free nz in
      let new = Chain-new h (d ∷ ds) fresh item key ch free nz in
      let at = at_new h (d ∷ ds) fresh item key ch free nz in
      let (nzd, atd, _) = new in
      elim (Bool-cases (ltb key d.key)) [
        | inl y ↦
            let (h', e, ch') = in_front h (d ∷ ds) fresh item key ch free nz in
            let p = place-front (cell fresh item key) d ds y in
            (h', rw (nzd, atd, y, e) refl, rw p ch')
        | inr n ↦
            let (h', e, ch') =
              insert_behind_lem fuel (new_element h fresh item key) (cell fresh item key) d ds
                (omega arith) new nz at out dis in
            let p = place-later (cell fresh item key) d ds n in (h', rw (nzd, atd, n) e, rw p ch')
      ]

same_length :
    (cs : List Cell) (xs : List (Entry ℕ)) {fuel : ℕ}
    → entries cs ≡ xs
    → length xs ≤ fuel
    → length cs ≤ fuel
same_length cs xs eq enough =
    let n = length-map {B = Entry ℕ} cs (λ c. (c.key, c.item)) in
    omega (arith, ap (length {A = Entry ℕ}) eq)

-- SortedInsert into a list that holds the entries `xs` returns, given a fresh place in the heap and
-- at least as much fuel as the list has elements, and the list then holds `xs` with the new entry
-- enqueued behind all entries whose key is not greater.
pub sorted_insert-Holds :
    (fuel : ℕ) (h : Heap) (l : Handle) (xs : List (Entry ℕ)) (fresh item key : ℕ)
    → Holds h l xs
    → h fresh ≡ none
    → (fresh == 0) ≡ false
    → length xs ≤ fuel
    → (l' : Handle) × (h' : Heap) × (sorted_insert fuel h l fresh item key ≡ some (l', h'))
      × Holds h' l' (enqueue (key, item) xs)
sorted_insert-Holds fuel h l xs fresh item key (cs, is, ch, dis, eq) free nz enough =
    let c = cell fresh item key in
    let (h', e, ch') =
      sorted_insert-Chain h fresh item key free nz fuel cs (same_length cs xs eq enough) ch dis in
    (
      handle (place c cs),
      h',
      rw is e,
      (
        place c cs,
        refl,
        ch',
        place-Distinct c cs (has-free h cs fresh ch free) dis,
        entries-place c cs ∙ ap (enqueue (key, item)) eq,
      ),
    )
