-- ===== src/Filesys/SysOpenFile/Table.antt =====
-- A file entered into the kernel's table, fetched and closed.
use cs270hw.Base.{
  ℕ, ◌+◌, ◌<◌, ◌≡◌, ◌∙◌, ◌⊎◌, ap, refl, sym, true, false, Bool-cases, inl, inr, Option, none, some,
  length, length-set, get_or, get_or-set, get_elem?-get_or, set, ◌==◌, ==_iff, if◌then◌else◌,
  lt→ltb, arith,
}
use cs270hw.Base.Int.{ℤ, pos, minus_one, ◌+ℤ◌}
use cs270hw.BitMap.{BitMap, find, clear}
use cs270hw.BitMap.Bits.{IsValid, is_set, Changes, test_lem, clear_lem}
use cs270hw.BitMap.Laws.{Found, full, at, find_lem}
use cs270hw.Userprog.MemoryManager.Pages.{rested, taken, acquired, released}
use cs270hw.Filesys.SysOpenFile.{
  SysFiles, SysOpenFile, replied, table_size, guarded, put_object, added, add, got, get, closed,
  close, past_table,
}
use cs270hw.Threads.Lock.{LockState}

pub record IsSound (s : SysFiles) : Type 0 where
  pub valid : IsValid s.bit_map
  pub bits : s.bit_map.num_bits ≡ table_size
  pub slots : length s.table ≡ table_size

-- the manager with its lock in a state
abbrev pub with_lock : LockState → SysFiles → SysFiles
with_lock l s = record s { fm_lock = l }

guarded_lem :
    {A : Type 0} (me last : ℕ) (body : SysFiles → Option (A × SysFiles)) (s s1 : SysFiles) (a : A)
    → body (with_lock (taken me) s) ≡ some (a, with_lock (taken me) s1)
    → guarded me body (with_lock (rested last) s) ≡ some (replied a none, with_lock (rested me) s1)
guarded_lem me last body s s1 a h = rw (acquired me last, h, released me) refl

-- the state after Add took slot k
abbrev pub entered : ℕ → ℕ → BitMap → SysOpenFile → SysFiles → SysFiles
entered file k bits object s =
    put_object file (some (record object { file_id = pos (k + 2) }))
      (record s { table = set s.table k file; bit_map = bits })

within : (k : ℕ) → k < table_size → past_table (pos k) ≡ false
within k h = ground arith

got_lem :
    (k : ℕ) (s : SysFiles)
    → IsSound s
    → k < table_size
    → got (pos k) s ≡ some (if is_set s.bit_map k then some (get_or s.table k 0) else none, s)
unfolding got
got_lem k s sound less =
    let tested = test_lem s.bit_map k sound.valid (omega (arith, sound.bits)) in
    let there = get_elem?-get_or s.table k 0 (omega (arith, sound.slots)) in
    elim (Bool-cases (is_set s.bit_map k)) [
      | inl y ↦ rw (within k less, tested, y, there) refl
      | inr n ↦ rw (within k less, tested, n) refl
    ]

one_less : (pos 1 +ℤ minus_one) ≡ pos 0
unfolding ◌+ℤ◌
one_less = refl

-- Close of the slot of an object that is open once
closed_lem :
    (k p : ℕ) (bits : BitMap) (object : SysOpenFile) (s : SysFiles)
    → IsSound s
    → k < table_size
    → is_set s.bit_map k ≡ true
    → get_or s.table k 0 ≡ p
    → s.objects p ≡ some object
    → object.user_opens ≡ pos 1
    → clear s.bit_map (pos k) ≡ some bits
    → closed (pos k) s
      ≡ some (
        tt,
        put_object p none (record (put_object p (some (record object { user_opens = pos 0 })) s) {
          table = set s.table k 0;
          bit_map = bits;
        }),
      )
unfolding closed
closed_lem k p bits object s sound less used slot known once cleared =
    let tested = test_lem s.bit_map k sound.valid (omega (arith, sound.bits)) in
    let there = get_elem?-get_or s.table k 0 (omega (arith, sound.slots)) ∙ ap some slot in
    let room = lt→ltb k (length s.table) (omega (arith, sound.slots)) in
    rw (within k less, tested, used, there, known, once, one_less, room, cleared) refl

added_lem :
    (k file : ℕ) (bits : BitMap) (object : SysOpenFile) (s : SysFiles)
    → k < length s.table
    → find s.bit_map ≡ some (pos k, bits)
    → s.objects file ≡ some object
    → added file s ≡ some (pos k, entered file k bits object s)
unfolding added
added_lem k file bits object s less found known =
    let room = lt→ltb k (length s.table) less in rw (found, room, known) refl

locked-IsSound : (l : LockState) (s : SysFiles) → IsSound s → IsSound (with_lock l s)
locked-IsSound l s sound = record { valid = sound.valid; bits = sound.bits; slots = sound.slots }

-- the calls on a slot that was free
pub record Kept (me you last file : ℕ) (object : SysOpenFile) (s : SysFiles) : Type 0 where
  pub slot : ℕ
  pub held : SysFiles
  pub left : SysFiles
  pub in_table : slot < table_size
  pub free :
      get me (pos slot) (with_lock (rested last) s)
      ≡ some (replied none none, with_lock (rested me) s)
  pub gives :
      add me file (with_lock (rested last) s)
      ≡ some (replied (pos slot) none, with_lock (rested me) held)
  pub numbered : held.objects file ≡ some (record object { file_id = pos (slot + 2) })
  pub found :
      get you (pos slot) (with_lock (rested me) held)
      ≡ some (replied (some file) none, with_lock (rested you) held)
  pub closes :
      close you (pos slot) (with_lock (rested me) held)
      ≡ some (replied tt none, with_lock (rested you) left)
  pub gone :
      get me (pos slot) (with_lock (rested you) left)
      ≡ some (replied none none, with_lock (rested me) left)
  pub deleted : left.objects file ≡ none
  pub stays : IsSound left
  pub bits : (j : ℕ) → is_set left.bit_map j ≡ is_set s.bit_map j

module _ (me you last file : ℕ) (object : SysOpenFile) (s : SysFiles) (sound : IsSound s)
    (known : s.objects file ≡ some object) (once : object.user_opens ≡ pos 1) where
  kept_lem :
      (k : ℕ) (b : BitMap)
      → k < table_size
      → find s.bit_map ≡ some (pos k, b)
      → is_set s.bit_map k ≡ false
      → Changes s.bit_map k true b
      → Kept me you last file object s
  unfolding get add close
  kept_lem k b less eq free change =
      let same : (file == file) ≡ true = (==_iff file file).1 refl in
      let here : (k == k) ≡ true = (==_iff k k).1 refl in
      let held = entered file k b object s in
      let held-IsSound : IsSound held = record {
        valid = change.valid;
        bits = change.size ∙ sound.bits;
        slots = length-set s.table k file ∙ sound.slots;
      } in
      let used : is_set b k ≡ true = change.bits k ∙ rw here refl in
      let at_k : get_or held.table k 0 ≡ file =
        get_or-set s.table k k file 0 (omega (arith, sound.slots)) ∙ rw here refl in
      let (b', cleared, change') =
        clear_lem b k change.valid (omega (arith, change.size, sound.bits)) in
      let unused : is_set b' k ≡ false = change'.bits k ∙ rw here refl in
      let numbered : held.objects file ≡ some (record object { file_id = pos (k + 2) }) =
        rw same refl in
      let left : SysFiles =
        put_object file none
          (record (put_object file
            (some (record object { file_id = pos (k + 2); user_opens = pos 0 })) held) {
              table = set held.table k 0;
              bit_map = b';
            }) in
      let left-IsSound : IsSound left = record {
        valid = change'.valid;
        bits = change'.size ∙ change.size ∙ sound.bits;
        slots = length-set held.table k 0 ∙ held-IsSound.slots;
      } in
      record {
        slot = k;
        held = held;
        left = left;
        in_table = less;
        free = guarded_lem me last (got (pos k)) s s none (
            got_lem k (with_lock (taken me) s) (locked-IsSound (taken me) s sound) less
            ∙ rw free refl);
        gives = guarded_lem me last (added file) s held (pos k) (
            added_lem k file b object (with_lock (taken me) s) (omega (arith, sound.slots)) eq
              known);
        numbered = numbered;
        found = guarded_lem you me (got (pos k)) held held (some file) (
            got_lem k (with_lock (taken you) held) (locked-IsSound (taken you) held held-IsSound)
              less
            ∙ rw (used, at_k) refl);
        closes = guarded_lem you me (closed (pos k)) held left tt (
            closed_lem k file b' (record object { file_id = pos (k + 2) })
              (with_lock (taken you) held) (locked-IsSound (taken you) held held-IsSound) less used
              at_k numbered once cleared);
        gone = guarded_lem me you (got (pos k)) left left none (
            got_lem k (with_lock (taken me) left) (locked-IsSound (taken me) left left-IsSound) less
            ∙ rw unused refl);
        deleted = rw same refl;
        stays = left-IsSound;
        bits = λ j. elim (Bool-cases (j == k)) [
          | inl y ↦
              let e = (==_iff j k).0 y in
              change'.bits j ∙ rw y (sym (ap (is_set s.bit_map) e ∙ free))
          | inr n ↦ change'.bits j ∙ rw n (change.bits j ∙ rw n refl)
        ];
      }

  -- With the table sound, no thread at the lock, and an object with one open: Add either returns -1
  -- with every slot in use and changes nothing but the lock's last holder, or takes a slot for which
  -- Get gave NULL and numbers the object by the slot plus 2. Then Get of the slot gives the object to
  -- any thread; Close by that thread deletes the object, after which Get gives NULL, the table is
  -- sound and the same slots are in use as before. Every call gives the lock back.
  pub close-add :
      ((add me file (with_lock (rested last) s)
          ≡ some (replied minus_one none, with_lock (rested me) s))
        × ((j : ℕ) → j < table_size → is_set s.bit_map j ≡ true))
      ⊎ Kept me you last file object s
  unfolding add added
  close-add = let (r, eq, found) = find_lem s.bit_map sound.valid in go r eq found
    where
      go :
          (r : ℤ × BitMap)
          → find s.bit_map ≡ some r
          → Found s.bit_map 0 r
          → ((add me file (with_lock (rested last) s)
                ≡ some (replied minus_one none, with_lock (rested me) s))
              × ((j : ℕ) → j < table_size → is_set s.bit_map j ≡ true))
            ⊎ Kept me you last file object s
      go r eq (full all) = inl (
        guarded_lem me last (added file) s s minus_one (rw (added, eq) refl),
        λ j l. all j (omega arith) (omega (arith, sound.bits)),
      )
      go r eq (at k b lo hi free before change) =
          inr (kept_lem k b (omega (arith, sound.bits)) eq free change)
