-- ===== src/Filesys/Directory/Tests.antt =====
-- The theorems on directories at concrete tables.
use cs270hw.Base.{
  ℕ, zero, suc, ◌≡◌, ◌≢◌, refl, Bool, true, some, List, [], ◌∷◌, replicate, length-replicate, arith,
  if◌then◌else◌,
}
use cs270hw.Base.Int.{pos, minus_one}
use cs270hw.Filesys.Directory.{
  DirectoryEntry, Directory, same, find_from, find_index, find, add, remove,
}
use cs270hw.Filesys.Directory.Lookup.{HasNames}
use cs270hw.Filesys.Directory.Update.{find-add}
use cs270hw.Filesys.Directory.Removal.{find-remove}
use cs270hw.Filesys.Directory.Invariant.{IsValid, add-IsValid, remove-IsValid}

-- an entry of memory that is not set
abbrev noise : DirectoryEntry
noise = record { in_use = true; sector = pos 77; name = replicate 10 255 }

abbrev fresh : ℕ → Directory
fresh k = replicate k noise

fresh-HasNames : (k : ℕ) → HasNames (fresh k)
fresh-HasNames zero = tt
fresh-HasNames (suc k) = (refl, fresh-HasNames k)

-- a full table of one file, "a"
abbrev one_file : Directory
one_file = record { in_use = true; sector = pos 5; name = 97 ∷ replicate 9 0 } ∷ []

absent : find_index one_file (98 ∷ []) ≡ minus_one
unfolding find_index find_from same
absent = refl

there : find_index one_file (97 ∷ []) ≢ minus_one
unfolding find_index find_from same
there = λ e. cc

one_file-IsValid : IsValid one_file
one_file-IsValid = record { unique = ((λ used. refl), tt); names = (refl, tt) }

find-add_example :
    (d' : Directory) × (add fresh one_file (98 ∷ []) (pos 6) ≡ some (true, d'))
    × ((t : List ℕ) → find d' t ≡ (if same 9 (98 ∷ []) t then some (pos 6) else find one_file t))
find-add_example =
    find-add fresh (λ k. length-replicate k noise) fresh-HasNames one_file (98 ∷ []) (pos 6)
      one_file-IsValid.names absent (omega arith)

find-remove_example :
    (d' : Directory) × (remove one_file (97 ∷ []) ≡ some (true, d'))
    × ((t : List ℕ) → find d' t ≡ (if same 9 (97 ∷ []) t then some minus_one else find one_file t))
find-remove_example = find-remove one_file (97 ∷ []) one_file-IsValid.unique there

add-IsValid_example :
    (b : Bool) × (d' : Directory) × (add fresh one_file (98 ∷ []) (pos 6) ≡ some (b, d'))
    × IsValid d'
add-IsValid_example =
    add-IsValid fresh (λ k. length-replicate k noise) fresh-HasNames one_file (98 ∷ []) (pos 6)
      one_file-IsValid

remove-IsValid_example :
    (b : Bool) × (d' : Directory) × (remove one_file (97 ∷ []) ≡ some (b, d')) × IsValid d'
remove-IsValid_example = remove-IsValid one_file (97 ∷ []) one_file-IsValid
