-- ===== src/Vm/SwapManager/Adding.antt =====
-- addPage and findPage.
use cs270hw.Base.{
  ℕ, ◌+◌, ◌*◌, ◌≤◌, ◌<◌, ◌≡◌, ◌∙◌, ap, refl, sym, true, false, Bool-cases, inl, inr, Option, some,
  List, length, get_elem?, get_or, get_elem?-get_or, ◌==◌, ==_iff, arith,
}
use cs270hw.Base.Int.{ℤ}
use cs270hw.BitMap.Bits.{is_set}
use cs270hw.Machine.{Entry}
use cs270hw.Machine.Translate.{page_size}
use cs270hw.Vm.SwapManager.{SwapFile, SwapManager, swap_size, find_page, read_found}
use cs270hw.Vm.SwapManager.Slots.{IsSound, holds}
use cs270hw.Vm.SwapManager.Search.{
  first, first_ext, first_only, IsFirst, hit, miss, first_lem, search_lem,
}

-- What a swap file does, where `extent` is its size: a page written to a slot is there, the file
-- reaches behind it, and a slot that the file reached to its end stays as it was.
pub record IsPaged {F : Type 0} (file : SwapFile F) (extent : F → ℕ) : Type 0 where
  pub writes :
      (f : F) (buffer : List ℕ) (i : ℕ)
      → length buffer ≡ page_size
      → (file.write_at f buffer page_size (page_size * i)).0 ≡ page_size
  pub reads_back :
      (f : F) (buffer : List ℕ) (i : ℕ)
      → length buffer ≡ page_size
      → file.read_at (file.write_at f buffer page_size (page_size * i)).1 page_size (page_size * i)
        ≡ buffer
  pub reads_other :
      (f : F) (buffer : List ℕ) (i j : ℕ)
      → length buffer ≡ page_size
      → page_size * j + page_size ≤ extent f
      → (i == j) ≡ false
      → file.read_at (file.write_at f buffer page_size (page_size * i)).1 page_size (page_size * j)
        ≡ file.read_at f page_size (page_size * j)
  pub grows :
      (f : F) (buffer : List ℕ) (i : ℕ)
      → length buffer ≡ page_size
      → extent f ≤ extent (file.write_at f buffer page_size (page_size * i)).1
  pub covers :
      (f : F) (buffer : List ℕ) (i : ℕ)
      → length buffer ≡ page_size
      → page_size * i + page_size ≤ extent (file.write_at f buffer page_size (page_size * i)).1

-- The swap file reaches to the end of every slot in use.
abbrev pub IsBacked : {F : Type 0} → (F → ℕ) → SwapManager F → Type 0
IsBacked extent m =
    (i : ℕ) → i < swap_size → is_set m.bitmap i ≡ true → page_size * i + page_size ≤ extent m.swap

module _ {F : Type 0} (file : SwapFile F) (table : ℕ → Option Entry) where
  pub find_page_lem :
      (m : SwapManager F) (pid : ℤ) (vpn : ℕ)
      → IsSound table m
      → find_page file table m pid vpn
        ≡ read_found file table m (first (holds table m pid vpn) swap_size 0)
  unfolding find_page
  find_page_lem m pid vpn sound =
      rw (search_lem table swap_size 0 m pid vpn sound (omega arith)) refl

module _ {F : Type 0} (file : SwapFile F) (table : ℕ → Option Entry) (extent : F → ℕ)
    (paged : IsPaged file extent) where
  -- the page that was written to its first slot
  pub find_written :
      (m : SwapManager F) (f : F) (buffer : List ℕ) (pid : ℤ) (vpn k : ℕ)
      → IsSound table m
      → m.swap ≡ (file.write_at f buffer page_size (page_size * k)).1
      → length buffer ≡ page_size
      → k < swap_size
      → holds table m pid vpn k ≡ true
      → ((j : ℕ) → j < k → holds table m pid vpn j ≡ false)
      → find_page file table m pid vpn ≡ some (some (get_or m.entries k 0, buffer))
  find_written m f buffer pid vpn k sound swap size less y before =
      let found =
        first_only (holds table m pid vpn) swap_size 0 k (omega arith) (omega arith) y before in
      let entry = get_elem?-get_or m.entries k 0 (omega (arith, sound.pages)) in
      let bytes =
        ap (λ s. file.read_at s page_size (page_size * k)) swap
        ∙ paged.reads_back f buffer k size in
      find_page_lem file table m pid vpn sound ∙ rw (found, entry, bytes) refl

  -- a page that is not in the slot that was written
  pub find_unwritten :
      (m m' : SwapManager F) (buffer : List ℕ) (pid : ℤ) (vpn k : ℕ)
      → IsSound table m
      → IsSound table m'
      → IsBacked extent m
      → length buffer ≡ page_size
      → m'.swap ≡ (file.write_at m.swap buffer page_size (page_size * k)).1
      → k < swap_size
      → ((j : ℕ) → j < swap_size → holds table m' pid vpn j ≡ holds table m pid vpn j)
      → holds table m pid vpn k ≡ false
      → ((j : ℕ) → (k == j) ≡ false → get_elem? m'.entries j ≡ get_elem? m.entries j)
      → find_page file table m' pid vpn ≡ find_page file table m pid vpn
  find_unwritten m m' buffer pid vpn k sound sound' backed size swap less same z entries =
      let slots =
        first_ext (holds table m' pid vpn) (holds table m pid vpn) swap_size 0
          (λ j l. same j (omega arith)) in
      find_page_lem file table m' pid vpn sound'
      ∙ rw slots (read (first_lem (holds table m pid vpn) swap_size 0))
      ∙ sym (find_page_lem file table m pid vpn sound)
    where
      read :
          {r : Option ℕ}
          → IsFirst (holds table m pid vpn) swap_size 0 r
          → read_found file table m' r ≡ read_found file table m r
      read (miss none_at) = refl
      read (hit j lo hi y before) =
          let other : (k == j) ≡ false = elim (Bool-cases (k == j)) [
            | inl q ↦ let e = ap (holds table m pid vpn) ((==_iff k j).0 q) in cc
            | inr q ↦ q
          ] in
          let used : is_set m.bitmap j ≡ true = ground (arith, y) in
          let bytes =
            ap (λ s. file.read_at s page_size (page_size * j)) swap
            ∙ paged.reads_other m.swap buffer k j size (backed j (omega arith) used) other in
          rw (entries j other, bytes) refl
