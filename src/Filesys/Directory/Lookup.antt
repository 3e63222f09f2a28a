-- ===== src/Filesys/Directory/Lookup.antt =====
-- A directory as a table of sectors by name, and that Find reads it.
use cs270hw.Base.{
  ℕ, suc, ◌+◌, ◌≡◌, ◌∙◌, ap, refl, inl, inr, true, false, Option, none, some, List, [], ◌∷◌, length,
  get_elem?, arith, if◌then◌else◌, Bool-cases, ◌>>=◌,
}
use cs270hw.Base.Int.{ℤ, pos, negsuc, minus_one}
use cs270hw.Filesys.Directory.{
  DirectoryEntry, Directory, file_name_max_len, hit, find_from, find_index, find,
}

-- the sector of the first entry in use that has the name
abbrev pub view : Directory → List ℕ → Option ℤ
view [] name = none
view (e ∷ es) name = if hit e name then some e.sector else view es name

-- where that entry is
abbrev pub index : Directory → List ℕ → Option ℕ
index [] name = none
index (e ∷ es) name =
    if hit e name then some 0 else elim (index es name) [ none ↦ none | some i ↦ some (suc i) ]

-- the -1 of a name that is not there
abbrev pub or_minus_one : Option ℤ → ℤ
or_minus_one none = minus_one
or_minus_one (some s) = s

-- No two entries in use have the same name.
abbrev pub IsUnique : Directory → Type 0
IsUnique [] = Unit {0}
IsUnique (e ∷ es) = (e.in_use ≡ true → view es e.name ≡ none) × IsUnique es

-- Every entry has the ten bytes of its name.
abbrev pub HasNames : Directory → Type 0
HasNames [] = Unit {0}
HasNames (e ∷ es) = (length e.name ≡ suc file_name_max_len) × HasNames es

abbrev from : ℕ → Option ℕ → ℤ
from i none = minus_one
from i (some j) = pos (i + j)

from-suc :
    (i : ℕ) (o : Option ℕ)
    → from (suc i) o ≡ from i (elim o [ none ↦ none | some j ↦ some (suc j) ])
from-suc i none = refl
from-suc i (some j) = ap pos (omega arith)

find_from-index :
    (i : ℕ) (d : Directory) (name : List ℕ) → find_from i d name ≡ from i (index d name)
unfolding find_from
find_from-index i [] name = refl
find_from-index i (e ∷ es) name = elim (Bool-cases (hit e name)) [
  | inl h ↦ rw h (ap pos (omega arith))
  | inr h ↦ rw h (find_from-index (suc i) es name ∙ from-suc i (index es name))
]

-- FindIndex's answer for a place in the table, or for none
abbrev pub answer : Option ℕ → ℤ
answer none = minus_one
answer (some i) = pos i

from-zero : (o : Option ℕ) → from 0 o ≡ answer o
from-zero none = refl
from-zero (some i) = ap pos (omega arith)

pub find_index-index : (d : Directory) (name : List ℕ) → find_index d name ≡ answer (index d name)
unfolding find_index
find_index-index d name = find_from-index 0 d name ∙ from-zero (index d name)

-- What the index of a name says of the table.
pub data Located (d : Directory) (name : List ℕ) : Option ℕ → Type 0 where
  missing : view d name ≡ none → Located d name none
  present :
      (i : ℕ) (e : DirectoryEntry)
      → get_elem? d i ≡ some e
      → hit e name ≡ true
      → view d name ≡ some e.sector
      → Located d name (some i)

Located-later :
    (e : DirectoryEntry) (es : Directory) (name : List ℕ) {o : Option ℕ}
    → hit e name ≡ false
    → Located es name o
    → Located (e ∷ es) name (elim o [ none ↦ none | some i ↦ some (suc i) ])
Located-later e es name h (missing v) = missing (rw h v)
Located-later e es name h (present i e' g k v) = present (suc i) e' g k (rw h v)

pub located : (d : Directory) (name : List ℕ) → Located d name (index d name)
located [] name = missing refl
located (e ∷ es) name = elim (Bool-cases (hit e name)) [
  | inl h ↦ rw h (present 0 e refl h (rw h refl))
  | inr h ↦ rw h (Located-later e es name h (located es name))
]

-- Find completes, and reads the table of sectors by name.
pub find-view : (d : Directory) (name : List ℕ) → find d name ≡ some (or_minus_one (view d name))
unfolding find
find-view d name = rw (find_index-index d name, find) (read (located d name))
  where
    read :
        {o : Option ℕ}
        → Located d name o
        → elim (answer o) [
          | negsuc n ↦ some minus_one
          | pos i ↦ (do e ← get_elem? d i; some e.sector)
        ]
          ≡ some (or_minus_one (view d name))
    read (missing v) = rw v refl
    read (present j e g k v) = rw (g, v) refl
