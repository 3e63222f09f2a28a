-- ===== src/Machine/Translate/Safety.antt =====
-- Translate stops for no access of the machine, and every address that it gives is backed by a valid
-- entry of the table and lies in main memory with all its bytes.
use cs270hw.Base.{
  ℕ, ◌/◌, ◌%◌, ◌+◌, ◌*◌, ◌<◌, ◌≤◌, ◌≡◌, ◌⊎◌, Bool, true, false, ◌&&◌, none, some, List, get_elem?,
  set, length, leb, if◌then◌else◌, ◌==◌,
}
use cs270hw.Machine.{
  Machine, Entry, Exception, Outcome, done, address_error, page_fault, read_only_error, bus_error,
}
use cs270hw.Machine.Translate.{
  page_size, num_phys_pages, memory_size, tlb_size, Translation, fault, address, misaligned,
}

-- the sizes of an access
abbrev pub IsSize : ℕ → Type 0
IsSize size = (size ≡ 1) ⊎ (size ≡ 2) ⊎ (size ≡ 4)

-- One of the two tables is there, with as many entries as the machine takes it to have.
abbrev pub HasTable : Machine → Type 0
HasTable m =
    ((table : List Entry) × (m.tlb ≡ none)
      × (m.page_table ≡ some table)
      × (length table ≡ m.page_table_size))
    ⊎ ((table : List Entry) × (m.tlb ≡ some table)
        × (m.page_table ≡ none)
        × (length table ≡ tlb_size))

-- The entry that the tables of a machine have for a page: the one at its index of the page table, or
-- a valid one of the TLB for it. `put` is the machine with another entry in that place.
pub data Backs (m : Machine) (vpn : ℕ) (e : Entry) : (Entry → Machine) → Type 0 where
  in_page_table :
      (table : List Entry)
      → m.page_table ≡ some table
      → get_elem? table vpn ≡ some e
      → Backs m vpn e (λ e'. record m { page_table = some (set table vpn e') })
  in_tlb :
      (table : List Entry) (i : ℕ)
      → m.tlb ≡ some table
      → get_elem? table i ≡ some e
      → e.virtual_page ≡ vpn
      → Backs m vpn e (λ e'. record m { tlb = some (set table i e') })

-- no valid entry of the TLB from `i` on, `n` of them, is for the page
abbrev pub Misses : ℕ → ℕ → List Entry → ℕ → Type 0
Misses n i table vpn =
    (j : ℕ) (e : Entry)
    → i ≤ j
    → j < i + n
    → get_elem? table j ≡ some e
    → (e.valid && e.virtual_page == vpn) ≡ false

-- why Translate raises an exception
pub data Faults (m : Machine) (va size : ℕ) (writing : Bool) : Exception → Type 0 where
  unaligned : misaligned va size ≡ true → Faults m va size writing address_error
  beyond : leb m.page_table_size (va / page_size) ≡ true → Faults m va size writing address_error
  invalid :
      (e : Entry) (put : Entry → Machine)
      → Backs m (va / page_size) e put
      → e.valid ≡ false
      → Faults m va size writing page_fault
  missed :
      (table : List Entry)
      → m.tlb ≡ some table
      → Misses tlb_size 0 table (va / page_size)
      → Faults m va size writing page_fault
  protected :
      (e : Entry) (put : Entry → Machine)
      → Backs m (va / page_size) e put
      → e.valid ≡ true
      → (e.read_only && writing) ≡ true
      → Faults m va size writing read_only_error
  no_frame :
      (e : Entry) (put : Entry → Machine)
      → Backs m (va / page_size) e put
      → e.valid ≡ true
      → num_phys_pages ≤ e.physical_page
      → Faults m va size writing bus_error

-- What an outcome of Translate may be: an exception with its reason, and the machine as it was, or the
-- address that the entry of the page gives, and the machine with this entry marked.
pub data Translated (m : Machine) (va size : ℕ) (writing : Bool)
    : Outcome Translation → Type 0 where
  faulted :
      (x : Exception) → Faults m va size writing x → Translated m va size writing (done (fault x) m)
  mapped :
      (e : Entry) (put : Entry → Machine) (pa : ℕ)
      → Backs m (va / page_size) e put
      → e.valid ≡ true
      → (e.read_only && writing) ≡ false
      → e.physical_page < num_phys_pages
      → pa ≡ e.physical_page * page_size + va % page_size
      → pa + size ≤ memory_size
      → Translated m va size writing (
          done
            (address pa)
            (put (record e { used = true; dirty = if writing then true else e.dirty })))
