-- ===== src/Vm/SwapManager/OnHost.antt =====
-- The swap file as vm/Makefile compiles it, a file of the host.
use cs270hw.Base.{
  ℕ, zero, suc, ◌+◌, ◌*◌, ◌≤◌, ◌≡◌, ◌∙◌, ◌⊎◌, ap, refl, sym, false, ◌==◌, Option, none, some, List,
  [], ◌∷◌, length, take, arith,
}
use cs270hw.Base.Int.{ℤ}
use cs270hw.Filesys.StubFile.{Host, IsPosix, read_at, write_at}
use cs270hw.Machine.{Entry}
use cs270hw.Machine.Translate.{page_size}
use cs270hw.Vm.SwapManager.{SwapFile, SwapManager, find_page, write_page}
use cs270hw.Vm.SwapManager.Slots.{IsSound}
use cs270hw.Vm.SwapManager.Adding.{IsPaged, IsBacked}
use cs270hw.Vm.SwapManager.Writing.{IsKnown, write_page_lem}

-- `swap`, an OpenFile of the stub
abbrev pub swap_file : {F : Type 0} → Host F → SwapFile F
swap_file host = record { write_at = write_at host; read_at = read_at host }

take_whole : (xs : List ℕ) (n : ℕ) → length xs ≡ n → take n xs ≡ xs
take_whole [] zero h = refl
take_whole [] (suc n) h = refl
take_whole (x ∷ xs) zero h = absurd (omega arith)
take_whole (x ∷ xs) (suc n) h = ap (λ r. x ∷ r) (take_whole xs n (omega arith))

slots_apart :
    (i j : ℕ)
    → (i == j) ≡ false
    → (page_size * j + page_size ≤ page_size * i) ⊎ (page_size * i + page_size ≤ page_size * j)
slots_apart i j n = ground (arith, n)

module _ {F : Type 0} (host : Host F) (posix : IsPosix host) where
  swap_file-IsPaged : IsPaged (swap_file host) host.size
  swap_file-IsPaged = record {
    writes = λ f buffer i size. refl;
    reads_back = λ f buffer i size. rw (take_whole buffer page_size size) (
        ap (λ n. host.read (host.write f buffer (page_size * i)) n (page_size * i)) (sym size)
        ∙ posix.written f buffer (page_size * i));
    reads_other = λ f buffer i j size inside n. rw (take_whole buffer page_size size) (
        posix.unwritten f buffer (page_size * i) page_size (page_size * j) inside
          (rw size (slots_apart i j n)));
    grows = λ f buffer i size.
        rw (take_whole buffer page_size size)
          (let e = posix.grown f buffer (page_size * i) (omega arith) in omega arith);
    covers = λ f buffer i size.
        rw (take_whole buffer page_size size)
          (let e = posix.grown f buffer (page_size * i) (omega arith) in omega arith);
  }

  -- writePage of a page of bytes, with a sound swap space whose slots in use are in the swap file, a
  -- file of the host, and entries for the process's slots: where findPage finds nothing it is a failed
  -- ASSERT; else the swap space stays sound with its slots in the file, and findPage then gives the
  -- bytes.
  pub find_page-write_page :
      (table : ℕ → Option Entry) (m : SwapManager F) (pid : ℤ) (vpn : ℕ) (buffer : List ℕ)
      → IsSound table m
      → IsBacked host.size m
      → IsKnown (swap_file host) table m pid
      → length buffer ≡ page_size
      → ((find_page (swap_file host) table m pid vpn ≡ some none)
          × (write_page (swap_file host) table m pid vpn buffer ≡ none))
        ⊎ ((m' : SwapManager F) × (p : ℕ) × (write_page (swap_file host) table m pid vpn buffer
              ≡ some m')
            × IsSound table m'
            × IsBacked host.size m'
            × (find_page (swap_file host) table m' pid vpn ≡ some (some (p, buffer))))
  find_page-write_page table m pid vpn buffer =
      write_page_lem (swap_file host) table host.size m pid vpn buffer swap_file-IsPaged
