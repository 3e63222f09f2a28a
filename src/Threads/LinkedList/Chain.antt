-- ===== src/Threads/LinkedList/Chain.antt =====
-- A list on the heap as the sequence of its elements.
use cs270hw.Base.{
  ℕ, ◌≡◌, ◌∙◌, ap, refl, sym, inl, inr, Bool, true, false, ◌||◌, Option, some, List, [], ◌∷◌, arith,
  ◌==◌, ==_iff, Bool-cases,
}
use cs270hw.Threads.LinkedList.{Ptr, Element, Heap, Handle, write, set_next}

-- an element and where it is
pub record Cell : Type 0 where
  pub ptr : Ptr
  pub key : ℕ
  pub item : ℕ

abbrev pub element : Cell → Ptr → Element
element c p = record { next = p; key = c.key; item = c.item }

abbrev pub first_ptr : List Cell → Ptr
first_ptr [] = 0
first_ptr (c ∷ cs) = c.ptr

abbrev pub last_ptr : List Cell → Ptr
last_ptr [] = 0
last_ptr (c ∷ []) = c.ptr
last_ptr (c ∷ d ∷ ds) = last_ptr (d ∷ ds)

abbrev pub has : Ptr → List Cell → Bool
has q [] = false
has q (c ∷ cs) = q == c.ptr || has q cs

abbrev pub Distinct : List Cell → Type 0
Distinct [] = Unit {0}
Distinct (c ∷ cs) = (has c.ptr cs ≡ false) × Distinct cs

-- Each element is at its place, with the next one's place in it.
abbrev pub Chain : Heap → List Cell → Type 0
Chain h [] = Unit {0}
Chain h (c ∷ cs) = ((c.ptr == 0) ≡ false) × (h c.ptr ≡ some (element c (first_ptr cs))) × Chain h cs

-- the handle of a list with these elements
abbrev pub handle : List Cell → Handle
handle cs = record { first = first_ptr cs; last = last_ptr cs }

-- A write elsewhere keeps a chain; so does every heap that agrees on it.
pub Chain-agree :
    (h h' : Heap) (cs : List Cell)
    → ((q : Ptr) → has q cs ≡ true → h' q ≡ h q)
    → Chain h cs
    → Chain h' cs
Chain-agree h h' [] same ch = tt
Chain-agree h h' (c ∷ cs) same (nz, at, ch) =
    (nz, same c.ptr (ground arith) ∙ at, Chain-agree h h' cs (λ q e. same q (ground arith)) ch)

pub write_other :
    (h : Heap) (p q : Ptr) (e : Option Element) → (q == p) ≡ false → write h p e q ≡ h q
write_other h p q e n = rw n refl

pub write_same : (h : Heap) (p : Ptr) (e : Option Element) → write h p e p ≡ e
write_same h p e = let y : (p == p) ≡ true = (==_iff p p).1 refl in rw y refl

pub Chain-write :
    (h : Heap) (cs : List Cell) (p : Ptr) (e : Option Element)
    → has p cs ≡ false
    → Chain h cs
    → Chain (write h p e) cs
Chain-write h cs p e out = Chain-agree h (write h p e) cs (λ q i.
    write_other h p q e (elim (Bool-cases (q == p)) [
      | inl y ↦ let eq = (==_iff q p).0 y in let i' = ap (λ x. has x cs) (sym eq) in cc
      | inr n ↦ n
    ]))

pub set_next_lem :
    (h : Heap) (p q : Ptr) (e : Element)
    → h p ≡ some e
    → set_next h p q ≡ some (write h p (some (record e { next = q })))
unfolding set_next
set_next_lem h p q e at = rw (at, set_next) refl
