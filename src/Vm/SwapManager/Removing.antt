-- ===== src/Vm/SwapManager/Removing.antt =====
-- removePages.
use cs270hw.Base.{
  ℕ, zero, suc, ◌+◌, ◌<◌, ◌≤◌, ◌≡◌, ◌∙◌, ap, refl, sym, Bool, true, false, ◌&&◌, Bool-cases, inl,
  inr, Option, none, some, length, length-set, get_or, set, get_or-set, get_elem?-get_or, ◌==◌,
  ==_iff, if◌then◌else◌, ltb, leb, lt→ltb, arith,
}
use cs270hw.Base.Int.{ℤ, minus_one}
use cs270hw.BitMap.Bits.{is_set, test_lem, clear_lem}
use cs270hw.Machine.{Entry}
use cs270hw.Vm.SwapManager.{
  SwapFile, SwapManager, swap_size, same_int, remove_slot, remove_loop, remove_pages, find_page,
  read_found,
}
use cs270hw.Vm.SwapManager.Slots.{IsSound, holds}
use cs270hw.Vm.SwapManager.Search.{first, first_ext, first_none}
use cs270hw.Vm.SwapManager.Adding.{find_page_lem}

no_round :
    (i j : ℕ) (owned : Bool) {h : Bool}
    → h ≡ (if leb i j && ltb j (i + 0) && owned then false else h)
no_round i j owned {h} =
    let t : (leb i j && ltb j (i + 0) && owned) ≡ false = ground arith in rw t refl

-- A round that leaves the slot as it is counts for nothing, at another slot or one that nobody frees.
same_if :
    (i j n : ℕ) (owned h : Bool)
    → ((j == i) && owned) ≡ false
    → (if leb (suc i) j && ltb j (suc i + n) && owned then false else h)
      ≡ (if leb i j && ltb j (i + suc n) && owned then false else h)
same_if i j n true h t = ground arith
same_if i j n false h t = ground arith

module _ {F : Type 0} (table : ℕ → Option Entry) where
  -- what becomes of the slot `i`: it is nobody's, and not in use
  pub record Freed (m : SwapManager F) (i : ℕ) (m' : SwapManager F) : Type 0 where
    pub sound : IsSound table m'
    pub swap : m'.swap ≡ m.swap
    pub entries : m'.entries ≡ m.entries
    pub owner :
        (j : ℕ)
        → get_or m'.pids j minus_one ≡ (if j == i then minus_one else get_or m.pids j minus_one)
    pub used : (j : ℕ) → is_set m'.bitmap j ≡ (if j == i then false else is_set m.bitmap j)

  remove_slot_lem :
      (m : SwapManager F) (i : ℕ)
      → IsSound table m
      → i < swap_size
      → (m' : SwapManager F) × (remove_slot i m ≡ some m') × Freed m i m'
  unfolding remove_slot
  remove_slot_lem m i sound less =
      let tested = test_lem m.bitmap i sound.valid (omega (arith, sound.bits)) in
      let room = lt→ltb i (length m.pids) (omega (arith, sound.owners)) in
      let owner =
        λ (j : ℕ). get_or-set m.pids i j minus_one minus_one (omega (arith, sound.owners)) in
      let size = length-set m.pids i minus_one ∙ sound.owners in
      elim (Bool-cases (is_set m.bitmap i)) [
        | inl y ↦
            let (bits, eq, change) = clear_lem m.bitmap i sound.valid (omega (arith, sound.bits)) in
            (
              record m { pids = set m.pids i minus_one; bitmap = bits },
              rw (room, tested, y, eq) refl,
              record {
                sound = record {
                  valid = change.valid;
                  bits = change.size ∙ sound.bits;
                  owners = size;
                  pages = sound.pages;
                  entry = λ j l u. sound.entry j l (let b = change.bits j in ground arith);
                };
                swap = refl;
                entries = refl;
                owner = owner;
                used = change.bits;
              },
            )
        | inr n ↦ (
          record m { pids = set m.pids i minus_one },
          rw (room, tested, n) refl,
          record {
            sound = record {
              valid = sound.valid;
              bits = sound.bits;
              owners = size;
              pages = sound.pages;
              entry = sound.entry;
            };
            swap = refl;
            entries = refl;
            owner = owner;
            used = λ j. elim (Bool-cases (j == i)) [
              | inl y ↦ rw y (ap (is_set m.bitmap) ((==_iff j i).0 y) ∙ n)
              | inr q ↦ rw q refl
            ];
          },
        )
      ]

  -- what becomes of the slots from `i` on, `n` of them
  pub record Removed (pid : ℤ) (n i : ℕ) (m m' : SwapManager F) : Type 0 where
    pub sound : IsSound table m'
    pub swap : m'.swap ≡ m.swap
    pub entries : m'.entries ≡ m.entries
    pub slots :
        (pid' : ℤ) (vpn j : ℕ)
        → holds table m' pid' vpn j ≡ (
            if leb i j && ltb j (i + n) && same_int (get_or m.pids j minus_one) pid
            then false
            else holds table m pid' vpn j)

  -- the step of the loop at a slot of the process
  Freed-step :
      (pid : ℤ) (n i : ℕ) (m m1 : SwapManager F)
      → Freed m i m1
      → same_int (get_or m.pids i minus_one) pid ≡ true
      → (pid' : ℤ) (vpn j : ℕ)
      → (if leb (suc i) j && ltb j (suc i + n) && same_int (get_or m1.pids j minus_one) pid
          then false
          else holds table m1 pid' vpn j)
        ≡ (if leb i j && ltb j (i + suc n) && same_int (get_or m.pids j minus_one) pid
            then false
            else holds table m pid' vpn j)
  Freed-step pid n i m m1 freed y pid' vpn j = elim (Bool-cases (j == i)) [
    | inl q ↦
        let e = (==_iff j i).0 q in
        let y' : same_int (get_or m.pids j minus_one) pid ≡ true =
          ap (λ k. same_int (get_or m.pids k minus_one) pid) e ∙ y in
        let idle : is_set m1.bitmap j ≡ false = freed.used j ∙ rw q refl in
        let t : (leb i j && ltb j (i + suc n)) ≡ true = ground arith in
        let h1 : holds table m1 pid' vpn j ≡ false = ground (arith, idle) in
        let t' : (leb (suc i) j && ltb j (suc i + n) && same_int (get_or m1.pids j minus_one) pid)
            ≡ false =
          ground arith in
        let w : (leb i j && ltb j (i + suc n) && same_int (get_or m.pids j minus_one) pid) ≡ true =
          ground (arith, y') in
        rw (t', w) h1
    | inr q ↦
        let owner : get_or m1.pids j minus_one ≡ get_or m.pids j minus_one =
          freed.owner j ∙ rw q refl in
        let used : is_set m1.bitmap j ≡ is_set m.bitmap j = freed.used j ∙ rw q refl in
        let t : ((j == i) && same_int (get_or m.pids j minus_one) pid) ≡ false =
          ground (arith, q) in
        rw (owner, used, freed.entries)
          (same_if i j n (same_int (get_or m.pids j minus_one) pid) (holds table m pid' vpn j) t)
  ]

  -- the step of the loop at a slot of another process
  kept_step :
      (pid : ℤ) (n i : ℕ) (m : SwapManager F)
      → same_int (get_or m.pids i minus_one) pid ≡ false
      → (pid' : ℤ) (vpn j : ℕ)
      → (if leb (suc i) j && ltb j (suc i + n) && same_int (get_or m.pids j minus_one) pid
          then false
          else holds table m pid' vpn j)
        ≡ (if leb i j && ltb j (i + suc n) && same_int (get_or m.pids j minus_one) pid
            then false
            else holds table m pid' vpn j)
  kept_step pid n i m z pid' vpn j =
      same_if i j n (same_int (get_or m.pids j minus_one) pid) (holds table m pid' vpn j)
        (elim (Bool-cases (j == i)) [
          | inl q ↦
              let z' = ap (λ k. same_int (get_or m.pids k minus_one) pid) ((==_iff j i).0 q) ∙ z in
              rw (q, z') refl
          | inr q ↦ rw q refl
        ])

  read_same :
      (file : SwapFile F) (m m' : SwapManager F)
      → m'.swap ≡ m.swap
      → m'.entries ≡ m.entries
      → (r : Option ℕ) → read_found file table m' r ≡ read_found file table m r
  read_same file m m' swap entries none = refl
  read_same file m m' swap entries (some i) = rw (swap, entries) refl

  remove_loop_lem :
      (n i : ℕ) (pid : ℤ) (m : SwapManager F)
      → IsSound table m
      → i + n ≤ swap_size
      → (m' : SwapManager F) × (remove_loop n i pid m ≡ some m') × Removed pid n i m m'
  unfolding remove_loop
  remove_loop_lem zero i pid m sound fits = (
    m,
    refl,
    record {
      sound = sound;
      swap = refl;
      entries = refl;
      slots = λ pid' vpn j. no_round i j (same_int (get_or m.pids j minus_one) pid);
    },
  )
  remove_loop_lem (suc n) i pid m sound fits =
      let owner = get_elem?-get_or m.pids i minus_one (omega (arith, sound.owners)) in
      elim (Bool-cases (same_int (get_or m.pids i minus_one) pid)) [
        | inl y ↦
            let (m1, eq1, freed) = remove_slot_lem m i sound (omega arith) in
            let (m', eq, rest) = remove_loop_lem n (suc i) pid m1 freed.sound (omega arith) in
            (
              m',
              rw (owner, y, eq1) eq,
              record {
                sound = rest.sound;
                swap = rest.swap ∙ freed.swap;
                entries = rest.entries ∙ freed.entries;
                slots = λ pid' vpn j.
                    rest.slots pid' vpn j ∙ Freed-step pid n i m m1 freed y pid' vpn j;
              },
            )
        | inr z ↦
            let (m', eq, rest) = remove_loop_lem n (suc i) pid m sound (omega arith) in
            (
              m',
              rw (owner, z) eq,
              record {
                sound = rest.sound;
                swap = rest.swap;
                entries = rest.entries;
                slots = λ pid' vpn j. rest.slots pid' vpn j ∙ kept_step pid n i m z pid' vpn j;
              },
            )
      ]

  -- removePages of a process, with a sound swap space, comes to an end. The swap space stays sound,
  -- findPage finds no page of that process, and for every other process what it found before.
  pub find_page-remove_pages :
      (file : SwapFile F) (pid : ℤ) (m : SwapManager F)
      → IsSound table m
      → (m' : SwapManager F) × (remove_pages pid m ≡ some m')
        × IsSound table m'
        × ((vpn : ℕ) → find_page file table m' pid vpn ≡ some none)
        × ((pid' : ℤ) (vpn : ℕ)
            → same_int pid pid' ≡ false
            → find_page file table m' pid' vpn ≡ find_page file table m pid' vpn)
  find_page-remove_pages file pid m sound =
      let (m', eq, removed) = remove_loop_lem swap_size 0 pid m sound (omega arith) in
      (
        m',
        eq,
        removed.sound,
        λ vpn.
            find_page_lem file table m' pid vpn removed.sound
            ∙ rw
                (first_none (holds table m' pid vpn) swap_size 0
                  (λ j less. let h = removed.slots pid vpn j in h ∙ (ground arith)))
                refl,
        λ pid' vpn other.
            let same =
              first_ext (holds table m' pid' vpn) (holds table m pid' vpn) swap_size 0
                (λ j less. let h = removed.slots pid' vpn j in h ∙ (ground (arith, other))) in
            find_page_lem file table m' pid' vpn removed.sound
            ∙ rw same (
                read_same file m m' removed.swap removed.entries
                  (first (holds table m pid' vpn) swap_size 0))
            ∙ sym (find_page_lem file table m pid' vpn sound),
      )
