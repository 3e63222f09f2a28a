-- ===== src/Filesys/Directory/Update.antt =====
-- What Add and Remove do to the table of sectors by name.
use cs270hw.Base.{
  ℕ, zero, suc, ◌+◌, ◌≤◌, ◌<◌, ◌≡◌, ◌∙◌, ap, refl, sym, inl, inr, true, false, ◌&&◌, Option, none,
  some, List, [], ◌∷◌, length, get_elem?, set, arith, if◌then◌else◌, Bool-cases, Option-cases, leb,
}
use cs270hw.Base.Int.{ℤ, minus_one}
use cs270hw.Filesys.Directory.{
  DirectoryEntry, Directory, file_name_max_len, max_table_size, same, hit, filled, place, carry,
  expand_table, add_expanded, add, find, find_index, unused,
}
use cs270hw.Filesys.Directory.Names.{same-copy, same_right}
use cs270hw.Filesys.Directory.Lookup.{
  view, HasNames, or_minus_one, answer, find_index-index, Located, located, missing, present,
  find-view,
}

hit-filled :
    (e : DirectoryEntry) (name t : List ℕ) (s : ℤ)
    → length e.name ≡ suc file_name_max_len
    → hit (filled e name s) t ≡ same file_name_max_len name t
hit-filled e name t s h = same-copy file_name_max_len name e.name t (omega (arith, h))

-- An entry without a name does not have another that compares equal.
pub hit-same :
    (e : DirectoryEntry) (name t : List ℕ)
    → same file_name_max_len name t ≡ true
    → hit e t ≡ hit e name
hit-same e name t h = ap (λ b. e.in_use && b) (sym (same_right file_name_max_len name t e.name h))

pub view-none :
    (e : DirectoryEntry) (es : Directory) (name : List ℕ)
    → view (e ∷ es) name ≡ none
    → (hit e name ≡ false) × (view es name ≡ none)
view-none e es name h = elim (Bool-cases (hit e name)) [
  | inl t ↦ let h1 = rw t at h in cc
  | inr f ↦ (f, rw f at h)
]

-- the table after a name gets a sector
abbrev pub with_name : Directory → List ℕ → ℤ → List ℕ → Option ℤ
with_name d name s t = if same file_name_max_len name t then some s else view d t

-- The entry of the new file in front of the table, in place of one that is not in use.
view-filled :
    (e : DirectoryEntry) (es : Directory) (name t : List ℕ) (s : ℤ)
    → length e.name ≡ suc file_name_max_len
    → view (filled e name s ∷ es) t ≡ with_name es name s t
view-filled e es name t s len = elim (Bool-cases (same file_name_max_len name t)) [
  | inl y ↦ rw (hit-filled e name t s len ∙ y, y, view) refl
  | inr n ↦ rw (hit-filled e name t s len ∙ n, n, view) refl
]

-- An entry in front that does not have the name.
view-kept :
    (e : DirectoryEntry) (es es' : Directory) (name t : List ℕ) (s : ℤ)
    → hit e name ≡ false
    → view es' t ≡ with_name es name s t
    → view (e ∷ es') t ≡ with_name (e ∷ es) name s t
view-kept e es es' name t s miss h = elim (Bool-cases (same file_name_max_len name t)) [
  | inl y ↦ rw (hit-same e name t y ∙ miss, y) (h ∙ rw y refl)
  | inr n ↦ rw n (ap (λ v. if hit e t then some e.sector else v) (h ∙ rw n refl))
]

with_name-unused :
    (e : DirectoryEntry) (es : Directory) (name t : List ℕ) (s : ℤ)
    → e.in_use ≡ false
    → with_name es name s t ≡ with_name (e ∷ es) name s t
with_name-unused e es name t s free = rw free refl

abbrev view_some : Option Directory → List ℕ → Option ℤ
view_some none t = none
view_some (some d) t = view d t

abbrev pub entry_or : DirectoryEntry → Option DirectoryEntry → DirectoryEntry
entry_or e none = e
entry_or e (some x) = x

pub view-place :
    (d d' : Directory) (name : List ℕ) (s : ℤ)
    → HasNames d
    → view d name ≡ none
    → place d name s ≡ some d'
    → (t : List ℕ) → view d' t ≡ with_name d name s t
unfolding place
view-place [] d' name s n v h t = cc
view-place (e ∷ es) d' name s (len, n) v h t =
    let (miss, v') = view-none e es name v in
    elim (Bool-cases e.in_use) [
      | inr free ↦
          sym (ap (λ o. view_some o t) (rw free at h))
          ∙ view-filled e es name t s len
          ∙ with_name-unused e es name t s free
      | inl used ↦ elim (Option-cases (place es name s)) [
        | inl full ↦ let h1 = rw (used, full) at h in cc
        | inr (es', found) ↦
            let h1 : some (e ∷ es') ≡ some d' = simp (used, found) at h in
            sym (ap (λ o. view_some o t) h1)
            ∙ view-kept e es es' name t s miss (view-place es es' name s n v' found t)
      ]
    ]

-- A free entry in the middle of a table, filled.
pub view-set :
    (d : Directory) (i : ℕ) (e : DirectoryEntry) (name t : List ℕ) (s : ℤ)
    → get_elem? d i ≡ some e
    → e.in_use ≡ false
    → length e.name ≡ suc file_name_max_len
    → view d name ≡ none
    → view (set d i (filled e name s)) t ≡ with_name d name s t
view-set [] i e name t s g free len v = cc
view-set (x ∷ xs) zero e name t s g free len v =
    let is : x ≡ e = ap (entry_or e) g in
    view-filled e xs name t s len
    ∙ with_name-unused x xs name t s (ap (λ (y : DirectoryEntry). y.in_use) is ∙ free)
view-set (x ∷ xs) (suc i) e name t s g free len v =
    let (miss, v') = view-none x xs name v in
    view-kept x xs (set xs i (filled e name s)) name t s miss
      (view-set xs i e name t s g free len v')

-- The table that ExpandTable makes has the names of the old one.
pub view-carry :
    (d ns : Directory) (t : List ℕ)
    → length d ≤ length ns
    → HasNames ns
    → view (carry d ns) t ≡ view d t
unfolding carry
view-carry [] [] t h n = refl
view-carry (e ∷ es) [] t h n = absurd (omega arith)
view-carry [] (x ∷ xs) t h (len, n) = view-carry [] xs t (omega arith) n
view-carry (e ∷ es) (x ∷ xs) t h (len, n) =
    rw (ap (λ b. e.in_use && b) (same-copy file_name_max_len e.name x.name t (omega (arith, len))))
      (ap (λ v. if hit e t then some e.sector else v) (view-carry es xs t (omega arith) n))

-- The first entry behind the old ones is free.
pub carry-next :
    (d ns : Directory)
    → length d < length ns
    → HasNames ns
    → (e : DirectoryEntry) × (get_elem? (carry d ns) (length d) ≡ some e)
      × (e.in_use ≡ false)
      × (length e.name ≡ suc file_name_max_len)
unfolding carry
carry-next [] [] h n = absurd (omega arith)
carry-next (e ∷ es) [] h n = absurd (omega arith)
carry-next [] (x ∷ xs) h (len, n) = (unused x, refl, refl, len)
carry-next (e ∷ es) (x ∷ xs) h (len, n) = carry-next es xs (omega arith) n

not_found :
    (d : Directory) (name : List ℕ) {o : Option ℕ}
    → Located d name o
    → answer o ≡ minus_one
    → view d name ≡ none
not_found d name (missing v) h = v
not_found d name (present i e g k v) h = cc

pub view-not_found :
    (d : Directory) (name : List ℕ) → find_index d name ≡ minus_one → view d name ≡ none
view-not_found d name h = not_found d name (located d name) (sym (find_index-index d name) ∙ h)

-- a table of names that Find reads, when one name got a sector
find-with_name :
    (d d' : Directory) (name t : List ℕ) (s : ℤ)
    → view d' t ≡ with_name d name s t
    → find d' t ≡ (if same file_name_max_len name t then some s else find d t)
find-with_name d d' name t s h = elim (Bool-cases (same file_name_max_len name t)) [
  | inl y ↦
      let v : view d' t ≡ some s = rw y at h in
      rw y (find-view d' t ∙ ap (λ v. some (or_minus_one v)) v)
  | inr n ↦
      let v : view d' t ≡ view d t = rw n at h in
      rw n (find-view d' t ∙ ap (λ v. some (or_minus_one v)) v ∙ sym (find-view d t))
]

module _ (fresh : ℕ → Directory) (sized : (k : ℕ) → length (fresh k) ≡ k)
    (named : (k : ℕ) → HasNames (fresh k)) where
  add_expanded-view :
      (d : Directory) (name : List ℕ) (s : ℤ)
      → view d name ≡ none
      → length d < max_table_size
      → (d' : Directory) × (add_expanded fresh d name s ≡ some (true, d'))
        × ((t : List ℕ) → view d' t ≡ with_name d name s t)
  unfolding add_expanded expand_table
  add_expanded-view d name s v small =
      let size : ℕ = if leb max_table_size (length d + 10) then max_table_size else length d + 10 in
      let larger : length d < length (fresh size) = ground (arith, sized size, small) in
      let (e, g, free, len) = carry-next d (fresh size) larger (named size) in
      let same_view =
        λ (t : List ℕ). view-carry d (fresh size) t (omega (arith, larger)) (named size) in
      (
        set (carry d (fresh size)) (length d) (filled e name s),
        rw (g, free),
        λ t.
            view-set (carry d (fresh size)) (length d) e name t s g free len (same_view name ∙ v)
            ∙ ap (λ r. if same file_name_max_len name t then some s else r) (same_view t),
      )

  -- For a table whose entries have room for names: Add of a name that FindIndex does not find,
  -- with fewer entries than the limit, returns true, in a table that it expands if it is full;
  -- then Find gives the new sector for every name that compares equal to it, and what it gave
  -- before for every other name.
  pub find-add :
      (d : Directory) (name : List ℕ) (s : ℤ)
      → HasNames d
      → find_index d name ≡ minus_one
      → length d < max_table_size
      → (d' : Directory) × (add fresh d name s ≡ some (true, d'))
        × ((t : List ℕ) → find d' t ≡ (if same file_name_max_len name t then some s else find d t))
  unfolding add
  find-add d name s n absent small =
      let v = view-not_found d name absent in
      let room : leb max_table_size (length d) ≡ false = ground arith in
      elim (Option-cases (place d name s)) [
        | inr (d', found) ↦ (
          d',
          rw (absent, add, room, found) refl,
          λ t. find-with_name d d' name t s (view-place d d' name s n v found t),
        )
        | inl full ↦
            let (d', e, vs) = add_expanded-view d name s v small in
            (d', rw (absent, add, room, full) e, λ t. find-with_name d d' name t s (vs t))
      ]
