-- ===== src/Userprog/Pcb/Files.antt =====
-- The table of open files of a process.
use cs270hw.Base.{
  ℕ, zero, suc, ◌+◌, ◌<◌, ◌≤◌, ◌≡◌, ◌≢◌, ◌∙◌, ◌⊎◌, ap, refl, sym, true, false, Bool-cases, inl, inr,
  Option, none, some, length, length-set, get_or, get_or-set, get_elem?-get_or, set, ◌==◌, ==_iff,
  if◌then◌else◌, ltb, lt→ltb, arith,
}
use cs270hw.Base.Int.{ℤ, pos}
use cs270hw.BitMap.{BitMap, find, clear}
use cs270hw.BitMap.Bits.{IsValid, is_set, Changes, test_lem, clear_lem}
use cs270hw.BitMap.Laws.{Found, full, at, find_lem}
use cs270hw.Userprog.Pcb.{Pcb, max_user_files, add_file, get_file, is_file, close_loop, close_file}

pub record IsSound (p : Pcb) : Type 0 where
  pub valid : IsValid p.files
  pub bits : p.files.num_bits ≡ max_user_files
  pub array : length p.open_files ≡ max_user_files

-- the file at an index
abbrev pub view : Pcb → ℕ → Option ℕ
view p j = if is_set p.files j then some (get_or p.open_files j 0) else none

pub get_file_lem :
    (p : Pcb) (j : ℕ) → IsSound p → j < max_user_files → get_file (pos j) p ≡ some (view p j)
unfolding get_file
get_file_lem p j sound less =
    let tested = test_lem p.files j sound.valid (omega (arith, sound.bits)) in
    let found = get_elem?-get_or p.open_files j 0 (omega (arith, sound.array)) in
    elim (Bool-cases (is_set p.files j)) [
      | inl y ↦ rw (tested, y, found) refl
      | inr n ↦ rw (tested, n) refl
    ]

is_file_lem :
    (file j : ℕ) (p : Pcb)
    → IsSound p
    → j < max_user_files
    → (view p j ≡ some file → is_file file j p ≡ some true)
      × (view p j ≢ some file → is_file file j p ≡ some false)
is_file_lem file j p sound less =
    let tested = test_lem p.files j sound.valid (omega (arith, sound.bits)) in
    let found = get_elem?-get_or p.open_files j 0 (omega (arith, sound.array)) in
    elim (Bool-cases (is_set p.files j)) [
      | inr n ↦ (λ e. let e' = simp n at e in cc, λ e. rw (tested, n) refl)
      | inl y ↦ elim (Bool-cases (get_or p.open_files j 0 == file)) [
        | inl s ↦ (
          λ e. rw (tested, y, found, s) refl,
          λ e.
              let same = (==_iff (get_or p.open_files j 0) file).0 s in
              absurd (e (rw (y, same) refl)),
        )
        | inr d ↦ (
          λ e. let e' = simp y at e in let t = (==_iff (get_or p.open_files j 0) file).1 (cc) in cc,
          λ e. rw (tested, y, found, d) refl,
        )
      ]
    ]

-- The loop clears the first slot of the file.
close_loop_lem :
    (n i k file : ℕ) (p : Pcb)
    → IsSound p
    → i + n ≤ max_user_files
    → i ≤ k
    → k < i + n
    → view p k ≡ some file
    → ((j : ℕ) → j < max_user_files → (j == k) ≡ false → view p j ≢ some file)
    → (bits : BitMap) × (close_loop n i file p ≡ some (true, record p { files = bits }))
      × Changes p.files k false bits
unfolding close_loop
close_loop_lem zero i k file p sound fits lo hi here others = absurd (omega arith)
close_loop_lem (suc n) i k file p sound fits lo hi here others = elim (Bool-cases (i == k)) [
  | inl y ↦
      let e = (==_iff i k).0 y in
      let (bits, eq, change) = clear_lem p.files k sound.valid (omega (arith, sound.bits)) in
      let found = (is_file_lem file i p sound (omega arith)).0 (ap (view p) e ∙ here) in
      let eq' = ap (λ q. clear p.files (pos q)) e ∙ eq in (bits, rw (found, eq') refl, change)
  | inr z ↦
      let absent = (is_file_lem file i p sound (omega arith)).1 (others i (omega arith) z) in
      let later : suc i ≤ k = ground arith in
      let (bits, eq, change) =
        close_loop_lem n (suc i) k file p sound (omega arith) later (omega arith) here others in
      (bits, rw (absent, eq) refl, change)
]

-- the table with the file in slot k
IsAdded : ℕ → Pcb → ℕ → Pcb → Type 0
IsAdded file p k p' =
    IsSound p'
    × ((j : ℕ) → j < max_user_files → view p' j ≡ (if j == k then some file else view p j))

added_lem :
    (file : ℕ) (p : Pcb) (k : ℕ) (bits : BitMap)
    → IsSound p
    → k < max_user_files
    → Changes p.files k true bits
    → IsAdded file p k (record p { files = bits; open_files = set p.open_files k file })
unfolding IsAdded
added_lem file p k bits sound less change = (
  record {
    valid = change.valid;
    bits = change.size ∙ sound.bits;
    array = length-set p.open_files k file ∙ sound.array;
  },
  λ j l.
      let slot = get_or-set p.open_files k j file 0 (omega (arith, sound.array)) in
      elim (Bool-cases (j == k)) [
        | inl y ↦ rw (change.bits j, slot, y) refl
        | inr n ↦ rw (change.bits j, slot, n) refl
      ],
)

closed_lem :
    (file : ℕ) (p q : Pcb) (k : ℕ) (bits : BitMap)
    → IsAdded file p k q
    → view p k ≡ none
    → Changes q.files k false bits
    → IsSound (record q { files = bits })
      × ((j : ℕ) → j < max_user_files → view (record q { files = bits }) j ≡ view p j)
unfolding IsAdded
closed_lem file p q k bits (sound, seen) free change = (
  record { valid = change.valid; bits = change.size ∙ sound.bits; array = sound.array },
  λ j l. elim (Bool-cases (j == k)) [
    | inl y ↦ let e = (==_iff j k).0 y in rw (change.bits j, y, e, free) refl
    | inr n ↦ let s : view q j ≡ view p j = seen j l ∙ rw n refl in rw (change.bits j, n) s
  ],
)

-- `file` is in no open slot
absent_at :
    (file : ℕ) (p : Pcb) (j : ℕ)
    → IsSound p
    → j < max_user_files
    → get_file (pos j) p ≢ some (some file)
    → view p j ≢ some file
absent_at file p j sound less absent e = absurd (absent (get_file_lem p j sound less ∙ ap some e))

add_file_lem :
    (file : ℕ) (p : Pcb)
    → IsSound p
    → ((add_file file p ≡ some p) × ((j : ℕ) → j < max_user_files → is_set p.files j ≡ true))
      ⊎ ((k : ℕ) × (p' : Pcb) × (k < max_user_files)
          × (add_file file p ≡ some p')
          × (view p k ≡ none)
          × IsAdded file p k p')
unfolding add_file
add_file_lem file p sound = let (r, eq, found) = find_lem p.files sound.valid in go r eq found
  where
    go :
        (r : ℤ × BitMap)
        → find p.files ≡ some r
        → Found p.files 0 r
        → ((add_file file p ≡ some p) × ((j : ℕ) → j < max_user_files → is_set p.files j ≡ true))
          ⊎ ((k : ℕ) × (p' : Pcb) × (k < max_user_files)
              × (add_file file p ≡ some p')
              × (view p k ≡ none)
              × IsAdded file p k p')
    go r eq (full all) = inl (rw eq refl, λ j l. all j (omega arith) (omega (arith, sound.bits)))
    go r eq (at k bits lo hi free before change) =
        let less : k < max_user_files = omega (arith, sound.bits) in
        let room = lt→ltb k (length p.open_files) (omega (arith, sound.array)) in
        let positive : ltb 0 (k + 1) ≡ true = lt→ltb 0 (k + 1) (omega arith) in
        inr (
          k,
          record p { files = bits; open_files = set p.open_files k file },
          less,
          rw (eq, room, positive) refl,
          rw free refl,
          added_lem file p k bits sound less change,
        )

module _ (file : ℕ) (p : Pcb) (sound : IsSound p)
    (absent : (j : ℕ) → j < max_user_files → get_file (pos j) p ≢ some (some file)) where
  closes_added :
      (p' : Pcb) (k : ℕ)
      → k < max_user_files
      → view p k ≡ none
      → IsAdded file p k p'
      → (p'' : Pcb) × (close_file file p' ≡ some (true, p''))
        × IsSound p''
        × ((j : ℕ) → j < max_user_files → view p'' j ≡ view p j)
  unfolding IsAdded
  closes_added p' k less free added =
      let here : view p' k ≡ some file = added.1 k less ∙ rw ((==_iff k k).1 refl) refl in
      let others : (j : ℕ) → j < max_user_files → (j == k) ≡ false → view p' j ≢ some file =
        λ j l n e. absent_at file p j sound l (absent j l) (sym (added.1 j l ∙ rw n refl) ∙ e) in
      let (bits, eq, change) =
        close_loop_lem max_user_files 0 k file p' added.0 (omega arith) (omega arith) less here
          others in
      let (sound', same) = closed_lem file p p' k bits added free change in
      (record p' { files = bits }, eq, sound', same)

  -- In a sound control block in which the file is in no slot, AddFile either finds all slots in use and
  -- changes nothing, or puts the file into a free slot: GetFile gives the file there and at every other
  -- index what it gave before. Then CloseFile finds the file, keeps the block sound and has GetFile give
  -- at every index what it gave before AddFile.
  pub close_file-add_file :
      ((add_file file p ≡ some p) × ((j : ℕ) → j < max_user_files → is_set p.files j ≡ true))
      ⊎ ((k : ℕ) × (p' : Pcb) × (p'' : Pcb) × (k < max_user_files)
          × (add_file file p ≡ some p')
          × (get_file (pos k) p ≡ some none)
          × ((j : ℕ)
              → j < max_user_files
              → get_file (pos j) p' ≡ (if j == k then some (some file) else get_file (pos j) p))
          × (close_file file p' ≡ some (true, p''))
          × IsSound p''
          × ((j : ℕ) → j < max_user_files → get_file (pos j) p'' ≡ get_file (pos j) p))
  unfolding IsAdded
  close_file-add_file = elim (add_file_lem file p sound) [
    | inl unchanged ↦ inl unchanged
    | inr (k, p', less, eq, free, added) ↦
        let (p'', closed, sound'', same) = closes_added p' k less free added in
        inr (
          k,
          p',
          p'',
          less,
          eq,
          get_file_lem p k sound less ∙ ap some free,
          λ j l. elim (Bool-cases (j == k)) [
            | inl y ↦ get_file_lem p' j added.0 l ∙ ap some (added.1 j l) ∙ rw y refl
            | inr n ↦
                get_file_lem p' j added.0 l
                ∙ ap some (added.1 j l)
                ∙ rw n (sym (get_file_lem p j sound l))
          ],
          closed,
          sound'',
          λ j l. get_file_lem p'' j sound'' l ∙ ap some (same j l) ∙ sym (get_file_lem p j sound l),
        )
  ]
