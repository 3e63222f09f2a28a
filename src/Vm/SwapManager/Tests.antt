-- ===== src/Vm/SwapManager/Tests.antt =====
-- A swap space of 256 slots, all of them clear but the first, which holds page 5 of process 2.
use cs270hw.Base.{
  ℕ, zero, suc, ◌*◌, ◌+◌, ◌<◌, ◌≤◌, ◌≡◌, ◌⊎◌, refl, ap, Bool, not, ◌||◌, passes, passes_lem, true,
  false, Option, none, some, List, ◌∷◌, replicate, get_or, ◌==◌, if◌then◌else◌, arith,
}
use cs270hw.Base.Int.{ℤ, pos, minus_one}
use cs270hw.Machine.{Entry}
use cs270hw.Vm.SwapManager.{SwapFile, SwapManager, same_int, find_page, remove_pages, write_page}
use cs270hw.Vm.SwapManager.Slots.{IsSound}
use cs270hw.Vm.SwapManager.Adding.{IsBacked}
use cs270hw.Vm.SwapManager.OnHost.{swap_file, find_page-write_page}
use cs270hw.Filesys.StubFile.Bytes.{ByteFile, byte_host, byte_host-IsPosix}
use cs270hw.BitMap.Bits.{is_set}
use cs270hw.Vm.SwapManager.Removing.{find_page-remove_pages}

abbrev swap_space : SwapFile ByteFile
swap_space = swap_file byte_host

abbrev page_entry : ℕ → Entry
page_entry vpn = record {
  virtual_page = vpn;
  physical_page = 0;
  valid = true;
  read_only = false;
  used = false;
  dirty = false;
}

-- the entry at 40 is for page 5, the one at 41 for page 6
abbrev two_entries : ℕ → Option Entry
two_entries p =
    if p == 40 then some (page_entry 5) else if p == 41 then some (page_entry 6) else none

abbrev one_page : SwapManager ByteFile
one_page = record {
  swap = (128, λ k. 7);
  bitmap = record { num_bits = 256; num_words = 8; map = 1 ∷ replicate 7 0 };
  entries = replicate 256 40;
  pids = pos 2 ∷ replicate 255 minus_one;
}

get_or-replicate : (n a i : ℕ) → i < n → get_or (replicate n a) i 0 ≡ a
get_or-replicate zero a i h = absurd (omega arith)
get_or-replicate (suc n) a zero h = refl
get_or-replicate (suc n) a (suc i) h = get_or-replicate n a i (omega arith)

one_page-entry :
    (i : ℕ) → i < 256 → (e : Entry) × (two_entries (get_or one_page.entries i 0) ≡ some e)
one_page-entry i h = (page_entry 5, ap two_entries (get_or-replicate 256 40 i h))

one_page-IsSound : IsSound two_entries one_page
one_page-IsSound = record {
  valid = record { room = omega arith };
  bits = refl;
  owners = refl;
  pages = refl;
  entry = λ i h u. one_page-entry i h;
}

-- slot 0 is in the file, and no other is in use
abbrev only_first : ℕ → Bool
only_first i = not (is_set one_page.bitmap i) || i == 0

one_page-only_first : (i : ℕ) → i < 256 → only_first i ≡ true
unfolding is_set passes
one_page-only_first i h = passes_lem only_first 256 i h refl

one_page-IsBacked : (i : ℕ) → i < 256 → is_set one_page.bitmap i ≡ true → 128 * i + 128 ≤ 128
one_page-IsBacked i h u =
    let t = one_page-only_first i h in let first : i ≡ 0 = ground (arith, t, u) in omega arith

abbrev bytes : List ℕ
bytes = replicate 128 9

find_page-remove_pages_example :
    (m' : SwapManager ByteFile) × (remove_pages (pos 2) one_page ≡ some m')
    × IsSound two_entries m'
    × ((vpn : ℕ) → find_page swap_space two_entries m' (pos 2) vpn ≡ some none)
    × ((pid' : ℤ) (vpn : ℕ)
        → same_int (pos 2) pid' ≡ false
        → find_page swap_space two_entries m' pid' vpn
          ≡ find_page swap_space two_entries one_page pid' vpn)
find_page-remove_pages_example =
    find_page-remove_pages two_entries swap_space (pos 2) one_page one_page-IsSound

find_page-write_page_example :
    ((find_page swap_space two_entries one_page (pos 2) 5 ≡ some none)
      × (write_page swap_space two_entries one_page (pos 2) 5 bytes ≡ none))
    ⊎ ((m' : SwapManager ByteFile) × (p : ℕ) × (write_page swap_space two_entries one_page
            (pos 2)
            5
            bytes
          ≡ some m')
        × IsSound two_entries m'
        × IsBacked byte_host.size m'
        × (find_page swap_space two_entries m' (pos 2) 5 ≡ some (some (p, bytes))))
find_page-write_page_example =
    find_page-write_page byte_host byte_host-IsPosix two_entries one_page (pos 2) 5 bytes
      one_page-IsSound one_page-IsBacked (λ i h o. one_page-entry i h) refl
