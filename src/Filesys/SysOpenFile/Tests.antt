-- ===== src/Filesys/SysOpenFile/Tests.antt =====
-- The kernel's table of open files with one object, whose slot is not the first.
use cs270hw.Base.{
  ℕ, ◌<◌, ◌≡◌, ◌⊎◌, refl, true, none, some, List, [], ◌∷◌, replicate, ◌==◌, if◌then◌else◌, arith,
}
use cs270hw.Base.Int.{pos, minus_one}
use cs270hw.BitMap.{test}
use cs270hw.BitMap.Bits.{is_set}
use cs270hw.Userprog.MemoryManager.Pages.{rested}
use cs270hw.Filesys.SysOpenFile.{
  SysFiles, SysOpenFile, new_sys_file, replied, table_size, add, get_by_name, name_loop,
}
use cs270hw.Filesys.SysOpenFile.Table.{IsSound, Kept, with_lock, close-add}

-- the object at address 9, whose name is "A"
abbrev letter : SysOpenFile
letter = new_sys_file (65 ∷ []) 30 (pos 0)

-- the table with that object in slot `k`, and the bits of the first word
abbrev one_file : ℕ → List ℕ → SysFiles
one_file bits slots = record {
  table = slots;
  bit_map = record { num_bits = 128; num_words = 4; map = bits ∷ 0 ∷ 0 ∷ 0 ∷ [] };
  fm_lock = rested 0;
  objects = λ p. if p == 9 then some letter else none;
}

-- slot 0 is in use
abbrev one_used : SysFiles
one_used = one_file 1 (replicate 128 7)

one_used-IsSound : IsSound one_used
one_used-IsSound = record { valid = record { room = omega arith }; bits = refl; slots = refl }

close-add_example :
    ((add 1 9 (with_lock (rested 0) one_used)
        ≡ some (replied minus_one none, with_lock (rested 1) one_used))
      × ((j : ℕ) → j < table_size → is_set one_used.bit_map j ≡ true))
    ⊎ Kept 1 2 0 9 letter one_used
close-add_example = close-add 1 2 0 9 letter one_used one_used-IsSound refl refl

-- The file in slot 0 is found by its name; the one in slot 1 is not while slot 0 is free.
first_found :
    get_by_name 1 (65 ∷ []) (one_file 1 (9 ∷ replicate 127 0))
    ≡ some (replied (some (9, 0)) none, with_lock (rested 1) (one_file 1 (9 ∷ replicate 127 0)))
unfolding name_loop test
first_found = refl

second_hidden :
    get_by_name 1 (65 ∷ []) (one_file 2 (0 ∷ 9 ∷ replicate 126 0))
    ≡ some (replied none none, with_lock (rested 1) (one_file 2 (0 ∷ 9 ∷ replicate 126 0)))
unfolding name_loop test
second_hidden = refl
