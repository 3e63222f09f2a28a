-- ===== src/Vm/SwapManager/RoundTrip.antt =====
-- addPage, and findPage behind it.
use cs270hw.Base.{
  ℕ, ◌*◌, ◌<◌, ◌≡◌, ◌∙◌, ap, refl, sym, true, false, ◌&&◌, Bool-cases, inl, inr, ◌⊎◌, Option, some,
  List, length, length-set, get_elem?-set_ne, get_or, set, get_or-set, ◌==◌, ==_iff, if◌then◌else◌,
  lt→ltb, arith,
}
use cs270hw.Base.Int.{ℤ, pos, minus_one}
use cs270hw.BitMap.{BitMap, find}
use cs270hw.BitMap.Bits.{is_set, Changes}
use cs270hw.BitMap.Laws.{Found, full, at, find_lem}
use cs270hw.Machine.{Entry}
use cs270hw.Machine.Translate.{page_size}
use cs270hw.Vm.SwapManager.{
  SwapFile, SwapManager, swap_size, same_int, Added, returns, no_value, exits, add_page, add_new,
  add_found, find_page, search,
}
use cs270hw.Vm.SwapManager.Slots.{IsSound, holds, page_of, same_int_refl}
use cs270hw.Vm.SwapManager.Search.{IsFirst, hit, miss, first_lem, search_lem}
use cs270hw.Vm.SwapManager.Adding.{IsPaged, IsBacked, find_written, find_unwritten}

below : (j k : ℕ) → j < k → (j == k) ≡ false
below j k l = ground arith

-- the slot `k` given to a page of a process
abbrev pub placed : {F : Type 0} → SwapManager F → BitMap → ℕ → ℤ → ℕ → F → SwapManager F
placed m bits page pid k f = record {
  swap = f;
  bitmap = bits;
  entries = set m.entries k page;
  pids = set m.pids k pid;
}

module _ {F : Type 0} (table : ℕ → Option Entry) (m : SwapManager F) (bits : BitMap) (page : ℕ)
    (pid : ℤ) (k : ℕ) (f : F) (sound : IsSound table m) (less : k < swap_size)
    (change : Changes m.bitmap k true bits) where
  placed-IsSound : (e : Entry) → table page ≡ some e → IsSound table (placed m bits page pid k f)
  placed-IsSound e known = record {
    valid = change.valid;
    bits = change.size ∙ sound.bits;
    owners = length-set m.pids k pid ∙ sound.owners;
    pages = length-set m.entries k page ∙ sound.pages;
    entry = λ i l used.
        let at_i = get_or-set m.entries k i page 0 (omega (arith, sound.pages)) in
        elim (Bool-cases (i == k)) [
          | inl y ↦ (e, ap table (at_i ∙ rw y refl) ∙ known)
          | inr n ↦
              let old : is_set m.bitmap i ≡ true =
                let b = change.bits i in let b' = rw n at b in sym b' ∙ used in
              let (e', at') = sound.entry i l old in (e', ap table (at_i ∙ rw n refl) ∙ at')
        ];
  }

  placed-holds :
      (pid' : ℤ) (vpn i : ℕ)
      → holds table (placed m bits page pid k f) pid' vpn i ≡ (
          if i == k
          then same_int pid pid' && true && page_of (table page) == vpn
          else holds table m pid' vpn i)
  placed-holds pid' vpn i =
      let owner = get_or-set m.pids k i pid minus_one (omega (arith, sound.owners)) in
      let entry = get_or-set m.entries k i page 0 (omega (arith, sound.pages)) in
      let bit = change.bits i in
      elim (Bool-cases (i == k)) [
        | inl y ↦ rw (owner, entry, bit, y) refl
        | inr n ↦ rw (owner, entry, bit, n) refl
      ]

module _ {F : Type 0} (file : SwapFile F) (table : ℕ → Option Entry) (extent : F → ℕ) where
  -- What addPage comes to for the page `vpn` of a process: the swap space is full and the process
  -- exits; or the slots in use are in the file, findPage finds the page with the bytes of the buffer, and every other page as before.
  abbrev pub Stored : SwapManager F → ℤ → ℕ → List ℕ → Added × SwapManager F → Type 0
  Stored m pid vpn buffer (a, m') =
      ((a ≡ exits) × ((i : ℕ) → i < swap_size → is_set m.bitmap i ≡ true))
      ⊎ (IsSound table m'
          × IsBacked extent m'
          × ((p : ℕ) × (find_page file table m' pid vpn ≡ some (some (p, buffer)))
              × (page_of (table p) ≡ vpn))
          × ((pid' : ℤ) (vpn' : ℕ)
              → (same_int pid pid' && vpn == vpn') ≡ false
              → find_page file table m' pid' vpn' ≡ find_page file table m pid' vpn'))

module _ {F : Type 0} (file : SwapFile F) (table : ℕ → Option Entry) (extent : F → ℕ)
    (paged : IsPaged file extent) where
  module _ (m : SwapManager F) (page : ℕ) (pid : ℤ) (buffer : List ℕ) (e : Entry)
      (sound : IsSound table m) (backed : IsBacked extent m) (known : table page ≡ some e)
      (size : length buffer ≡ page_size) where
    -- a slot that holds the page holds no other
    apart :
        (k : ℕ)
        → holds table m pid e.virtual_page k ≡ true
        → (pid' : ℤ) (vpn' : ℕ) → (same_int pid pid' && e.virtual_page == vpn') ≡ false
        → holds table m pid' vpn' k ≡ false
    apart k y pid' vpn' other = ground (arith, y, other)

    whole_page :
        (k : ℕ)
        → k < swap_size
        → ((file.write_at m.swap buffer page_size (page_size * k)).0 == page_size) ≡ true
    whole_page k less =
        (==_iff (file.write_at m.swap buffer page_size (page_size * k)).0 page_size).1
          (paged.writes m.swap buffer k size)

    found_lem :
        (k : ℕ)
        → k < swap_size
        → holds table m pid e.virtual_page k ≡ true
        → ((j : ℕ) → j < k → holds table m pid e.virtual_page j ≡ false)
        → (r : Added × SwapManager F) × (add_found file table m page pid buffer page_size (some k)
            ≡ some r)
          × Stored file table extent m pid e.virtual_page buffer r
    found_lem k less y before =
        let f = (file.write_at m.swap buffer page_size (page_size * k)).1 in
        let m' : SwapManager F = record m { swap = f } in
        let sound' : IsSound table m' = record {
          valid = sound.valid;
          bits = sound.bits;
          owners = sound.owners;
          pages = sound.pages;
          entry = sound.entry;
        } in
        (
          (returns true, m'),
          rw (whole_page k less) refl,
          inr (
            sound',
            λ i l u.
                let more = paged.grows m.swap buffer k size in
                let old = backed i l u in omega arith,
            (
              get_or m.entries k 0,
              find_written file table extent paged m' m.swap buffer pid e.virtual_page k sound' refl
                  size less y before,
              ground (arith, y),
            ),
            λ pid' vpn' other.
                find_unwritten file table extent paged m m' buffer pid' vpn' k sound sound' backed
                  size refl less (λ j l. refl) (apart k y pid' vpn' other) (λ j n. refl),
          ),
        )

    new_slot :
        (k : ℕ) (bits : BitMap) (f : F)
        → k < swap_size
        → is_set m.bitmap k ≡ false
        → Changes m.bitmap k true bits
        → ((j : ℕ) → j < swap_size → holds table m pid e.virtual_page j ≡ false)
        → f ≡ (file.write_at m.swap buffer page_size (page_size * k)).1
        → let m' = placed m bits page pid k f in
          IsSound table m'
          × IsBacked extent m'
          × ((p : ℕ) × (find_page file table m' pid e.virtual_page ≡ some (some (p, buffer)))
              × (page_of (table p) ≡ e.virtual_page))
          × ((pid' : ℤ) (vpn' : ℕ)
              → (same_int pid pid' && e.virtual_page == vpn') ≡ false
              → find_page file table m' pid' vpn' ≡ find_page file table m pid' vpn')
    new_slot k bits f less free change absent written =
        let m' = placed m bits page pid k f in
        let sound' = placed-IsSound table m bits page pid k f sound less change e known in
        let holds' = placed-holds table m bits page pid k f sound less change in
        let entry = get_or-set m.entries k k page 0 (omega (arith, sound.pages)) in
        let here : (k == k) ≡ true = (==_iff k k).1 refl in
        let name = ap page_of known in
        (
          sound',
          λ i l u. elim (Bool-cases (i == k)) [
            | inl y ↦
                let end = paged.covers m.swap buffer k size in
                let q = (==_iff i k).0 y in let at = ap extent written in omega arith
            | inr n ↦
                let old : is_set m.bitmap i ≡ true = sym (change.bits i ∙ rw n refl) ∙ u in
                let more = paged.grows m.swap buffer k size in
                let reach = backed i l old in let at = ap extent written in omega arith
          ],
          (
            get_or m'.entries k 0,
            find_written file table extent paged m' m.swap buffer pid e.virtual_page k sound'
                written size less
                (holds' pid e.virtual_page k
                  ∙ rw (here, name, same_int_refl pid)
                      ((==_iff e.virtual_page e.virtual_page).1 refl))
                (λ j l. holds' pid e.virtual_page j ∙ rw (below j k l) (absent j (omega arith))),
            ap (λ p. page_of (table p)) (entry ∙ rw here refl) ∙ name,
          ),
          λ pid' vpn' other.
              find_unwritten file table extent paged m m' buffer pid' vpn' k sound sound' backed
                size written less
                (λ j l. holds' pid' vpn' j ∙ elim (Bool-cases (j == k)) [
                  | inl y ↦
                      let old : is_set m.bitmap j ≡ false =
                        ap (is_set m.bitmap) ((==_iff j k).0 y) ∙ free in
                      rw (y, name)
                        (let a : (same_int pid pid' && true && e.virtual_page == vpn') ≡ false =
                            ground (arith, other) in
                          let b : holds table m pid' vpn' j ≡ false = ground (arith, old) in
                          a ∙ sym b)
                  | inr n ↦ rw n refl
                ])
                (ground (arith, free))
                (λ j n. get_elem?-set_ne m.entries page (λ q. let t = (==_iff k j).1 q in cc)),
        )

    new_lem :
        ((j : ℕ) → j < swap_size → holds table m pid e.virtual_page j ≡ false)
        → (r : Added × SwapManager F) × (add_new file table m page pid buffer page_size ≡ some r)
          × Stored file table extent m pid e.virtual_page buffer r
    unfolding add_new
    new_lem absent = let (r, eq, found) = find_lem m.bitmap sound.valid in go r eq found
      where
        go :
            (r : ℤ × BitMap)
            → find m.bitmap ≡ some r
            → Found m.bitmap 0 r
            → (r : Added × SwapManager F) × (add_new file table m page pid buffer page_size
                ≡ some r)
              × Stored file table extent m pid e.virtual_page buffer r
        go r eq (full all) = (
          (exits, record m { bitmap = m.bitmap }),
          rw eq refl,
          inl (refl, λ i l. all i (omega arith) (omega (arith, sound.bits))),
        )
        go r eq (at k bits lo hi free before change) =
            let less : k < swap_size = omega (arith, sound.bits) in
            let f = (file.write_at m.swap buffer page_size (page_size * k)).1 in
            let room = lt→ltb k (length m.entries) (omega (arith, sound.pages)) in
            let room' = lt→ltb k (length m.pids) (omega (arith, sound.owners)) in
            let not_full : same_int (pos k) minus_one ≡ false = ground arith in
            (
              (no_value, placed m bits page pid k f),
              rw (eq, not_full, room, room', whole_page k less) refl,
              inr (new_slot k bits f less free change absent refl),
            )

    -- addPage, on a file that keeps its pages
    pub add_page_lem :
        (r : Added × SwapManager F) × (add_page file table m page pid buffer page_size ≡ some r)
        × Stored file table extent m pid e.virtual_page buffer r
    unfolding add_page
    add_page_lem =
        let searched = search_lem table swap_size 0 m pid e.virtual_page sound (omega arith) in
        go searched (first_lem (holds table m pid e.virtual_page) swap_size 0)
      where
        go :
            {s : Option ℕ}
            → search table swap_size 0 m pid e.virtual_page ≡ some s
            → IsFirst (holds table m pid e.virtual_page) swap_size 0 s
            → (r : Added × SwapManager F) × (add_page file table m page pid buffer page_size
                ≡ some r)
              × Stored file table extent m pid e.virtual_page buffer r
        go eq (hit k lo hi y before) =
            let (r, added, stored) =
              found_lem k (omega arith) y (λ j l. before j (omega arith) l) in
            (r, rw (known, eq) added, stored)
        go eq (miss none_at) =
            let (r, added, stored) = new_lem (λ j l. none_at j (omega arith) (omega arith)) in
            (r, rw (known, eq) added, stored)
