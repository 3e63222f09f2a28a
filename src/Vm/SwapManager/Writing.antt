-- ===== src/Vm/SwapManager/Writing.antt =====
-- writePage.
use cs270hw.Base.{
  ℕ, zero, suc, ◌+◌, ◌*◌, ◌<◌, ◌≤◌, ◌≡◌, ◌∙◌, ap, refl, Bool, true, false, ◌&&◌, Bool-cases, inl,
  inr, ◌⊎◌, Option, none, some, List, length, get_or, get_elem?-get_or, ◌==◌, ==_iff, if◌then◌else◌,
  arith,
}
use cs270hw.Base.Int.{ℤ, minus_one}
use cs270hw.BitMap.Bits.{is_set, test_lem}
use cs270hw.Machine.{Entry}
use cs270hw.Machine.Translate.{page_size}
use cs270hw.Vm.SwapManager.{
  SwapFile, SwapManager, swap_size, same_int, is_at_unchecked, write_loop, write_page, find_page,
  read_found, write_slot,
}
use cs270hw.Vm.SwapManager.Slots.{IsSound, holds}
use cs270hw.Vm.SwapManager.Search.{first, IsFirst, hit, miss, first_lem}
use cs270hw.Vm.SwapManager.Adding.{IsPaged, IsBacked, find_written, find_page_lem}

and_true : (b : Bool) → b ≡ (b && true)
and_true true = refl
and_true false = refl

and_false : (b : Bool) → false ≡ (b && false)
and_false true = refl
and_false false = refl

module _ {F : Type 0} (file : SwapFile F) (table : ℕ → Option Entry) where
  -- The slots of a process, used or not, have entries that are still there.
  abbrev pub IsKnown : SwapManager F → ℤ → Type 0
  IsKnown m pid =
      (i : ℕ)
      → i < swap_size
      → same_int (get_or m.pids i minus_one) pid ≡ true
      → (e : Entry) × (table (get_or m.entries i 0) ≡ some e)

  is_at_unchecked_lem :
      (m : SwapManager F) (pid : ℤ) (vpn i : ℕ)
      → IsSound table m
      → IsKnown m pid
      → i < swap_size
      → is_at_unchecked table m pid vpn i ≡ some (holds table m pid vpn i)
  unfolding is_at_unchecked
  is_at_unchecked_lem m pid vpn i sound known less =
      let owner = get_elem?-get_or m.pids i minus_one (omega (arith, sound.owners)) in
      let used = test_lem m.bitmap i sound.valid (omega (arith, sound.bits)) in
      let page = get_elem?-get_or m.entries i 0 (omega (arith, sound.pages)) in
      elim (Bool-cases (same_int (get_or m.pids i minus_one) pid)) [
        | inr n ↦ rw (owner, n) refl
        | inl y ↦
            let (e, at) = known i less y in
            elim (Bool-cases (e.virtual_page == vpn)) [
              | inl v ↦ rw (owner, y, page, at, v, used) (ap some (and_true (is_set m.bitmap i)))
              | inr v ↦ rw (owner, y, page, at, v) (ap some (and_false (is_set m.bitmap i)))
            ]
      ]

  -- what the loop comes to for the slot that it finds
  abbrev written : SwapManager F → List ℕ → Option ℕ → Option (SwapManager F)
  written m buffer none = none
  written m buffer (some k) =
      let (whole, m1) = write_slot file table m buffer page_size k in
      if whole then some m1 else none

  write_loop_lem :
      (n i : ℕ) (m : SwapManager F) (pid : ℤ) (vpn : ℕ) (buffer : List ℕ)
      → IsSound table m
      → IsKnown m pid
      → i + n ≤ swap_size
      → write_loop file table n i m pid vpn buffer
        ≡ written m buffer (first (holds table m pid vpn) n i)
  unfolding write_loop
  write_loop_lem zero i m pid vpn buffer sound known fits = refl
  write_loop_lem (suc n) i m pid vpn buffer sound known fits =
      let others = write_loop_lem n (suc i) m pid vpn buffer sound known (omega arith) in
      let here = is_at_unchecked_lem m pid vpn i sound known (omega arith) in
      elim (Bool-cases (holds table m pid vpn i)) [
        | inl y ↦ rw (here, others, y) refl
        | inr z ↦ rw (here, others, z) refl
      ]

  -- writePage, on a file that keeps its pages
  pub write_page_lem :
      (extent : F → ℕ) (m : SwapManager F) (pid : ℤ) (vpn : ℕ) (buffer : List ℕ)
      → IsPaged file extent
      → IsSound table m
      → IsBacked extent m
      → IsKnown m pid
      → length buffer ≡ page_size
      → ((find_page file table m pid vpn ≡ some none)
          × (write_page file table m pid vpn buffer ≡ none))
        ⊎ ((m' : SwapManager F) × (p : ℕ) × (write_page file table m pid vpn buffer ≡ some m')
            × IsSound table m'
            × IsBacked extent m'
            × (find_page file table m' pid vpn ≡ some (some (p, buffer))))
  write_page_lem extent m pid vpn buffer paged sound backed known size =
      go (write_loop_lem swap_size 0 m pid vpn buffer sound known (omega arith))
        (find_page_lem file table m pid vpn sound) (first_lem (holds table m pid vpn) swap_size 0)
    where
      go :
          {s : Option ℕ}
          → write_page file table m pid vpn buffer ≡ written m buffer s
          → find_page file table m pid vpn ≡ read_found file table m s
          → IsFirst (holds table m pid vpn) swap_size 0 s
          → ((find_page file table m pid vpn ≡ some none)
              × (write_page file table m pid vpn buffer ≡ none))
            ⊎ ((m' : SwapManager F) × (p : ℕ) × (write_page file table m pid vpn buffer ≡ some m')
                × IsSound table m'
                × IsBacked extent m'
                × (find_page file table m' pid vpn ≡ some (some (p, buffer))))
      go e e' (miss none_at) = inl (e', e)
      go e e' (hit k lo hi y before) =
          let f = (file.write_at m.swap buffer page_size (page_size * k)).1 in
          let m' : SwapManager F = record m { swap = f } in
          let whole =
            (==_iff (file.write_at m.swap buffer page_size (page_size * k)).0 page_size).1
              (paged.writes m.swap buffer k size) in
          let sound' : IsSound table m' = record {
            valid = sound.valid;
            bits = sound.bits;
            owners = sound.owners;
            pages = sound.pages;
            entry = sound.entry;
          } in
          inr (
            m',
            get_or m.entries k 0,
            e ∙ rw whole refl,
            sound',
            λ i l u.
                let more = paged.grows m.swap buffer k size in
                let old = backed i l u in omega arith,
            find_written file table extent paged m' m.swap buffer pid vpn k sound' refl size
                (omega arith) y (λ j l. before j (omega arith) l),
          )
