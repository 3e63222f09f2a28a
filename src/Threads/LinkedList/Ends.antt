-- ===== src/Threads/LinkedList/Ends.antt =====
-- The operations at the two ends of the list: SortedRemove, Append and Prepend.
use cs270hw.Base.{
  ℕ, ◌≡◌, ◌∙◌, ap, refl, sym, inl, inr, true, false, ◌||◌, none, some, List, [], ◌∷◌, ◌++◌, arith,
  ◌==◌, ==_iff, Bool-cases,
}
use cs270hw.Threads.LinkedList.{
  Ptr, Heap, Handle, write, new_element, new_list, sorted_remove, append, prepend,
}
use cs270hw.Threads.LinkedList.Chain.{
  Cell, last_ptr, has, Distinct, Chain, handle, Chain-write, write_same,
}
use cs270hw.Threads.LinkedList.Queue.{Entry, front, rest}
use cs270hw.Threads.LinkedList.Insert.{behind_last, last-append}
use cs270hw.Threads.LinkedList.Refine.{
  entries, Holds, has-free, eq_comm, cell, out_of_list, Chain-new, at_new, in_front,
}

last-has : (m : Cell) (ms : List Cell) → has (last_ptr (m ∷ ms)) (m ∷ ms) ≡ true
last-has m [] = ground (arith, (==_iff m.ptr m.ptr).1 refl)
last-has m (x ∷ xs) = ground (arith, last-has x xs)

sorted_remove-Chain :
    (h : Heap) (d : Cell) (ds : List Cell)
    → Chain h (d ∷ ds)
    → Distinct (d ∷ ds)
    → (sorted_remove h (handle (d ∷ ds))
        ≡ some (some (d.item, d.key), handle ds, write h d.ptr none))
      × Chain (write h d.ptr none) ds
unfolding sorted_remove
sorted_remove-Chain h d [] (nzd, atd, ch) (out, dis) =
    let same = (==_iff d.ptr d.ptr).1 refl in (rw (nzd, atd, same) refl, tt)
sorted_remove-Chain h d (m ∷ ms) (nzd, atd, ch) (out, dis) =
    let other : (d.ptr == last_ptr (m ∷ ms)) ≡ false =
      elim (Bool-cases (d.ptr == last_ptr (m ∷ ms))) [
        | inl y ↦
            let i = last-has m ms in
            let e = (==_iff d.ptr (last_ptr (m ∷ ms))).0 y in
            let i' = ap (λ q. has q (m ∷ ms)) e in cc
        | inr n ↦ n
      ] in
    (rw (nzd, atd, other) refl, Chain-write h (m ∷ ms) d.ptr none out ch)

-- SortedRemove on a list that holds the entries `xs` returns the item and the key of the front entry,
-- or NULL when there is none, and the list then holds the rest.
pub sorted_remove-Holds :
    (h : Heap) (l : Handle) (xs : List (Entry ℕ))
    → Holds h l xs
    → (l' : Handle) × (h' : Heap) × (sorted_remove h l ≡ some (front xs, l', h'))
      × Holds h' l' (rest xs)
unfolding sorted_remove
sorted_remove-Holds h l xs ([], is, ch, dis, eq) =
    (new_list, h, rw (is, sym eq) refl, ([], refl, tt, tt, rw (sym eq) refl))
sorted_remove-Holds h l xs (d ∷ ds, is, ch, dis, eq) =
    let (e, ch') = sorted_remove-Chain h d ds ch dis in
    (handle ds, write h d.ptr none, rw (is, sym eq) e, (ds, refl, ch', dis.1, rw (sym eq) refl))

has-snoc : (q : Ptr) (cs : List Cell) (c : Cell) → has q (cs ++ (c ∷ [])) ≡ (q == c.ptr || has q cs)
has-snoc q [] c = refl
has-snoc q (d ∷ ds) c = ground (arith, has-snoc q ds c)

snoc-Distinct :
    (cs : List Cell) (c : Cell) → has c.ptr cs ≡ false → Distinct cs → Distinct (cs ++ (c ∷ []))
snoc-Distinct [] c out dis = (refl, tt)
snoc-Distinct (d ∷ ds) c out (no_d, dis) = (
  ground (arith, has-snoc d.ptr ds c, eq_comm d.ptr c.ptr, out, no_d),
  snoc-Distinct ds c (ground arith) dis,
)

entries-snoc :
    (cs : List Cell) (c : Cell) → entries (cs ++ (c ∷ [])) ≡ entries cs ++ ((c.key, c.item) ∷ [])
entries-snoc [] c = refl
entries-snoc (d ∷ ds) c = ap (λ x. (d.key, d.item) ∷ x) (entries-snoc ds c)

module _ (h : Heap) (fresh item : ℕ) (free : h fresh ≡ none) (nz : (fresh == 0) ≡ false) where
  append-Chain :
      (cs : List Cell)
      → Chain h cs
      → Distinct cs
      → (h' : Heap) × (append h (handle cs) fresh item
          ≡ some (handle (cs ++ (cell fresh item 0 ∷ [])), h'))
        × Chain h' (cs ++ (cell fresh item 0 ∷ []))
  unfolding append
  append-Chain [] ch dis = (new_element h fresh item 0, refl, (nz, write_same h fresh _, tt))
  append-Chain (d ∷ ds) ch dis =
      let new = Chain-new h (d ∷ ds) fresh item 0 ch free nz in
      let (nzd, atd, _) = new in
      let (h', e, ch', same) =
        behind_last (cell fresh item 0) (new_element h fresh item 0) d ds new nz
          (at_new h (d ∷ ds) fresh item 0 ch free nz)
          (out_of_list h (d ∷ ds) fresh item 0 ch free nz) dis in
      (h', rw (nzd, e, last-append (d ∷ ds) (cell fresh item 0)) refl, ch')

  prepend-Chain :
      (cs : List Cell)
      → Chain h cs
      → (h' : Heap) × (prepend h (handle cs) fresh item
          ≡ some (handle (cell fresh item 0 ∷ cs), h'))
        × Chain h' (cell fresh item 0 ∷ cs)
  unfolding prepend
  prepend-Chain [] ch = (new_element h fresh item 0, refl, (nz, write_same h fresh _, tt))
  prepend-Chain (d ∷ ds) ch =
      let (nzd, _, _) = ch in
      let (h', e, ch') = in_front h (d ∷ ds) fresh item 0 ch free nz in (h', rw (nzd, e) refl, ch')

-- Append to a list that holds the entries `xs`, given a fresh place in the heap, puts an entry with
-- the key 0 behind them; Prepend puts it in front of them.
pub append-prepend-Holds :
    (h : Heap) (l : Handle) (xs : List (Entry ℕ)) (fresh item : ℕ)
    → Holds h l xs
    → h fresh ≡ none
    → (fresh == 0) ≡ false
    → ((l' : Handle) × (h' : Heap) × (append h l fresh item ≡ some (l', h'))
        × Holds h' l' (xs ++ ((0, item) ∷ [])))
      × ((l' : Handle) × (h' : Heap) × (prepend h l fresh item ≡ some (l', h'))
          × Holds h' l' ((0, item) ∷ xs))
append-prepend-Holds h l xs fresh item (cs, is, ch, dis, eq) free nz =
    let c = cell fresh item 0 in
    let out = has-free h cs fresh ch free in
    let (h1, e1, ch1) = append-Chain h fresh item free nz cs ch dis in
    let (h2, e2, ch2) = prepend-Chain h fresh item free nz cs ch in
    (
      (
        handle (cs ++ (c ∷ [])),
        h1,
        rw is e1,
        (
          cs ++ (c ∷ []),
          refl,
          ch1,
          snoc-Distinct cs c out dis,
          entries-snoc cs c ∙ ap (λ x. x ++ ((0, item) ∷ [])) eq,
        ),
      ),
      (handle (c ∷ cs), h2, rw is e2, (c ∷ cs, refl, ch2, (out, dis), ap (λ x. (0, item) ∷ x) eq)),
    )
