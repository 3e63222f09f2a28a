-- ===== src/Userprog/Pcb/Tests.antt =====
-- The table of open files at a concrete control block.
use cs270hw.Base.{
  ℕ, zero, suc, ◌<◌, ◌≡◌, ◌≢◌, ◌⊎◌, Bool-cases, inl, inr, refl, true, none, some, [], ◌∷◌, get_or,
  replicate, ◌==◌, if◌then◌else◌, arith,
}
use cs270hw.Base.Int.{pos, minus_one}
use cs270hw.BitMap.Bits.{is_set}
use cs270hw.Userprog.Pcb.{Pcb, max_user_files, add_file, get_file, close_file}
use cs270hw.Userprog.Pcb.Files.{IsSound, view, get_file_lem, close_file-add_file}

-- process 2, with file 7 in slot 0
abbrev shell : Pcb
shell = record {
  pid = pos 2;
  parent_pid = minus_one;
  thread = 50;
  status = pos 0;
  files = record { num_bits = 32; num_words = 1; map = 1 ∷ [] };
  open_files = 7 ∷ replicate 31 0;
}

shell-IsSound : IsSound shell
shell-IsSound = record { valid = record { room = omega arith }; bits = refl; array = refl }

get_or-zeros : (n i z : ℕ) → get_or (replicate n z) i z ≡ z
get_or-zeros zero i z = refl
get_or-zeros (suc n) zero z = refl
get_or-zeros (suc n) (suc i) z = get_or-zeros n i z

slot_of_shell : (j : ℕ) → get_or shell.open_files j 0 ≢ 9
slot_of_shell zero e = absurd (omega arith)
slot_of_shell (suc j) e = let z = get_or-zeros 31 j 0 in absurd (omega arith)

nine_absent : (j : ℕ) → j < max_user_files → get_file (pos j) shell ≢ some (some 9)
nine_absent j less e = elim (Bool-cases (is_set shell.files j)) [
  | inl y ↦
      let seen : view shell j ≡ some (get_or shell.open_files j 0) = rw y refl in
      let got = get_file_lem shell j shell-IsSound less in
      let same : get_or shell.open_files j 0 ≡ 9 = cc in absurd (slot_of_shell j same)
  | inr n ↦
      let seen : view shell j ≡ none = rw n refl in
      let got = get_file_lem shell j shell-IsSound less in cc
]

close_file-add_file_example :
    ((add_file 9 shell ≡ some shell) × ((j : ℕ) → j < max_user_files → is_set shell.files j ≡ true))
    ⊎ ((k : ℕ) × (p' : Pcb) × (p'' : Pcb) × (k < max_user_files)
        × (add_file 9 shell ≡ some p')
        × (get_file (pos k) shell ≡ some none)
        × ((j : ℕ)
            → j < max_user_files
            → get_file (pos j) p' ≡ (if j == k then some (some 9) else get_file (pos j) shell))
        × (close_file 9 p' ≡ some (true, p''))
        × IsSound p''
        × ((j : ℕ) → j < max_user_files → get_file (pos j) p'' ≡ get_file (pos j) shell))
close_file-add_file_example = close_file-add_file 9 shell shell-IsSound nine_absent
