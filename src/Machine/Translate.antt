-- ===== src/Machine/Translate.antt =====
-- `Machine::Translate` of machine/translate.cc: virtual to physical addresses.
pub mod Safety
use cs270hw.Base.{
  ℕ, zero, suc, ◌+◌, ◌*◌, ◌/◌, ◌%◌, Bool, true, false, not, ◌&&◌, ◌||◌, Option, none, some, List,
  get_elem?, set, ltb, leb, ◌==◌, if◌then◌else◌,
}
use cs270hw.Machine.{
  Machine, Entry, Exception, Outcome, done, stop, Cmd, address_error, page_fault, read_only_error,
  bus_error,
}

abbrev pub page_size : ℕ
page_size = 128

abbrev pub num_phys_pages : ℕ
num_phys_pages = 64

abbrev pub memory_size : ℕ
memory_size = num_phys_pages * page_size

abbrev pub tlb_size : ℕ
tlb_size = 4

-- the value of Translate: an exception code, or a physical address in `*physAddr`
pub data Translation : Type 0 where
  fault : Exception → Translation
  address : ℕ → Translation

-- `((size == 4) && (virtAddr & 0x3)) || ((size == 2) && (virtAddr & 0x1))`
unfoldable pub misaligned : ℕ → ℕ → Bool
misaligned va size = size == 4 && not (va % 4 == 0) || size == 2 && not (va % 2 == 0)

-- the entry with its use and dirty bits set
unfoldable pub touched : Bool → Entry → Entry
touched writing e = record e { used = true; dirty = if writing then true else e.dirty }

-- The checks on the entry that was found; `put` writes the entry back into its table.
unfoldable pub use_entry : ℕ → ℕ → Bool → Entry → (Entry → Machine) → Cmd Translation
unfolding touched
use_entry va size writing e put m =
    let frame : ℕ = e.physical_page in
    let pa : ℕ = frame * page_size + va % page_size in
    if e.read_only && writing
    then done (fault read_only_error) m
    else if leb num_phys_pages frame
    then done (fault bus_error) m
    else if leb (pa + size) memory_size
    then done (address pa) (put (touched writing e))
    else stop

-- the branch for a page table
unfoldable pub via_page_table : ℕ → ℕ → Bool → List Entry → Cmd Translation
via_page_table va size writing table m =
    let vpn : ℕ = va / page_size in
    if leb m.page_table_size vpn then done (fault address_error) m else elim (get_elem? table vpn) [
      | none ↦ stop
      | some e ↦
          if not e.valid
          then done (fault page_fault) m
          else use_entry va size writing e (λ e'. record m { page_table = some (set table vpn e') })
              m
    ]

-- the loop over the TLB, with `n` entries left from `i` on
unfoldable pub via_tlb : ℕ → ℕ → ℕ → ℕ → Bool → List Entry → Cmd Translation
via_tlb zero i va size writing table m = done (fault page_fault) m
via_tlb (suc n) i va size writing table m = elim (get_elem? table i) [
  | none ↦ stop
  | some e ↦
      let rest = via_tlb n (suc i) va size writing table m in
      if e.valid && e.virtual_page == va / page_size
      then use_entry va size writing e (λ e'. record m { tlb = some (set table i e') }) m
      else rest
]

-- We must have either a TLB or a page table, but not both.
unfoldable pub via_tables :
    Option (List Entry) → Option (List Entry) → ℕ → ℕ → Bool → Cmd Translation
via_tables none none va size writing m = stop
via_tables none (some table) va size writing m = via_page_table va size writing table m
via_tables (some table) none va size writing m = via_tlb tlb_size 0 va size writing table m
via_tables (some t) (some table) va size writing m = stop

unfoldable pub translate : ℕ → ℕ → Bool → Cmd Translation
translate va size writing m =
    if misaligned va size
    then done (fault address_error) m
    else via_tables m.tlb m.page_table va size writing m
