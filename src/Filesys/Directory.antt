-- ===== src/Filesys/Directory.antt =====
-- filesys/directory.h and directory.cc, as compiled with FILESYS: the table of names and header sectors.
-- A `char *` is the list of the bytes that follow it; `tableSize` is the length of the table, which
-- the constructor and ExpandTable set together. A new table starts with whatever the memory held, so
-- it is an argument. FetchFrom, WriteBack, List and Print are not modelled.
pub mod Names
pub mod Lookup
pub mod Update
pub mod Removal
pub mod Invariant
mod Tests
use cs270hw.Base.{
  ℕ, zero, suc, ◌+◌, ◌*◌, ◌/◌, Bool, true, false, not, ◌&&◌, Option, none, some, List, [], ◌∷◌, map,
  length, get_elem?, store, set, ◌>>=◌, leb, ◌==◌, if◌then◌else◌,
}
use cs270hw.Base.Int.{ℤ, pos, negsuc, minus_one}

abbrev pub file_name_max_len : ℕ
file_name_max_len = 9

-- the byte at a pointer, and the pointer after it
abbrev pub first : List ℕ → ℕ
first [] = 0
first (c ∷ cs) = c

abbrev pub next : List ℕ → List ℕ
next [] = []
next (c ∷ cs) = cs

-- `!strncmp(a, b, n)`
pub same : ℕ → List ℕ → List ℕ → Bool
same zero a b = true
same (suc n) a b =
    let rest = same n (next a) (next b) in
    if first a == first b then (if first a == 0 then true else rest) else false

-- `strncpy(to, from, n)`: zeros follow the end of the string
pub copy : ℕ → List ℕ → List ℕ → List ℕ
copy zero from to = to
copy (suc n) from [] = []
copy (suc n) from (b ∷ to) = first from ∷ copy n (if first from == 0 then [] else next from) to

pub record DirectoryEntry : Type 0 where
  pub in_use : Bool
  pub sector : ℤ
  pub name : List ℕ

abbrev pub Directory : Type 0
Directory = List DirectoryEntry

-- `((4+26*32)*128) / sizeof(DirectoryEntry)`; an entry has 20 bytes: two words and ten characters, padded
abbrev pub max_table_size : ℕ
max_table_size = (4 + 26 * 32) * 128 / 20

abbrev pub unused : DirectoryEntry → DirectoryEntry
unused e = record e { in_use = false }

-- `Directory::Directory`, on the new array
pub new_directory : List DirectoryEntry → Directory
new_directory fresh = map unused fresh

-- the test of one entry
abbrev pub hit : DirectoryEntry → List ℕ → Bool
hit e name = e.in_use && same file_name_max_len e.name name

-- the loop of FindIndex from `i` on
pub find_from : ℕ → Directory → List ℕ → ℤ
find_from i [] name = minus_one
find_from i (e ∷ es) name =
    let rest = find_from (suc i) es name in if hit e name then pos i else rest

-- `Directory::FindIndex`
pub find_index : Directory → List ℕ → ℤ
find_index d name = find_from 0 d name

-- `Directory::Find`; `none` is an access outside the table
pub find : Directory → List ℕ → Option ℤ
find d name = elim (find_index d name) [
  | negsuc n ↦ some minus_one
  | pos i ↦ (do e ← get_elem? d i; some e.sector)
]

-- the writes to the entry of a new file
abbrev pub filled : DirectoryEntry → List ℕ → ℤ → DirectoryEntry
filled e name s = record { in_use = true; sector = s; name = copy file_name_max_len name e.name }

-- the loop of Add over the entries
pub place : Directory → List ℕ → ℤ → Option Directory
place [] name s = none
place (e ∷ es) name s =
    let rest = place es name s in
    if e.in_use then (do es' ← rest; some (e ∷ es')) else some (filled e name s ∷ es)

-- the two loops of ExpandTable
pub carry : Directory → List DirectoryEntry → Directory
carry es [] = []
carry [] (n ∷ ns) = unused n ∷ carry [] ns
carry (e ∷ es) (n ∷ ns) =
    record { in_use = e.in_use; sector = e.sector; name = copy file_name_max_len e.name n.name }
    ∷ carry es ns

-- What `new DirectoryEntry[k]` holds.
module _ (fresh : ℕ → List DirectoryEntry) where
  -- `Directory::ExpandTable`
  pub expand_table : Directory → Directory
  expand_table d =
      let size : ℕ = length d + 10 in
      carry d (fresh (if leb max_table_size size then max_table_size else size))

  -- Add where no entry is free
  pub add_expanded : Directory → List ℕ → ℤ → Option (Bool × Directory)
  add_expanded d name s = do
    let d1 = expand_table d
    e ← get_elem? d1 (length d)
    if e.in_use then some (false, d1) else some (true, set d1 (length d) (filled e name s))

  -- `Directory::Add`
  pub add : Directory → List ℕ → ℤ → Option (Bool × Directory)
  add d name s = elim (find_index d name) [
    | pos i ↦ some (false, d)
    | negsuc n ↦
        if leb max_table_size (length d)
        then some (false, d)
        else elim (place d name s) [ some d1 ↦ some (true, d1) | none ↦ add_expanded d name s ]
  ]

-- `Directory::Remove`
pub remove : Directory → List ℕ → Option (Bool × Directory)
remove d name = elim (find_index d name) [
  | negsuc n ↦ some (false, d)
  | pos i ↦ (do e ← get_elem? d i; some (true, set d i (unused e)))
]
