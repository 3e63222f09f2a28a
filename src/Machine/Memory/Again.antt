-- ===== src/Machine/Memory/Again.antt =====
-- A page that was translated for a write translates again for a read.
use cs270hw.Base.{
  ℕ, ◌+◌, ◌*◌, ◌/◌, ◌%◌, ◌≡◌, inl, inr, refl, sym, ◌∙◌, Bool, true, false, ◌&&◌, none, some, List,
  get_elem?, set, length, arith, leb, Bool-cases, Option-cases, get_elem?-set_self, ap,
}
use cs270hw.Machine.{Machine, Entry, done}
use cs270hw.Machine.Translate.{
  page_size, num_phys_pages, memory_size, address, misaligned, touched, use_entry, via_page_table,
  via_tables, translate,
}

-- What a translation through a page table has found when it gives an address.
record Success (m : Machine) (va size : ℕ) (w : Bool) (table : List Entry) (pa : ℕ) (m' : Machine)
    : Type 0 where
  entry : Entry
  within : leb m.page_table_size (va / page_size) ≡ false
  found : get_elem? table (va / page_size) ≡ some entry
  valid : entry.valid ≡ true
  allowed : (entry.read_only && w) ≡ false
  frame : leb num_phys_pages entry.physical_page ≡ false
  place : pa ≡ entry.physical_page * page_size + va % page_size
  fits : leb (pa + size) memory_size ≡ true
  after : m' ≡ record m { page_table = some (set table (va / page_size) (touched w entry)) }

use_entry-Success :
    (m m' : Machine) (va size pa : ℕ) (w : Bool) (e : Entry) (put : Entry → Machine)
    → use_entry va size w e put m ≡ done (address pa) m'
    → ((e.read_only && w) ≡ false)
      × (leb num_phys_pages e.physical_page ≡ false)
      × (pa ≡ e.physical_page * page_size + va % page_size)
      × (leb (pa + size) memory_size ≡ true)
      × (m' ≡ put (touched w e))
unfolding use_entry
use_entry-Success m m' va size pa w e put h = elim (Bool-cases (e.read_only && w)) [
  | inl r ↦ let h' = simp r at h in cc
  | inr r ↦ elim (Bool-cases (leb num_phys_pages e.physical_page)) [
    | inl b ↦ let h' = simp (r, b) at h in cc
    | inr b ↦
        elim (Bool-cases (leb (e.physical_page * page_size + va % page_size + size) memory_size)) [
          | inl f ↦ let h' = simp (r, b, f) at h in (r, b, ground arith, ground arith, ground arith)
          | inr f ↦ let h' = simp (r, b, f) at h in cc
        ]
  ]
]

via_page_table-Success :
    (m m' : Machine) (va size pa : ℕ) (w : Bool) (table : List Entry)
    → via_page_table va size w table m ≡ done (address pa) m'
    → Success m va size w table pa m'
unfolding via_page_table
via_page_table-Success m m' va size pa w table h =
    elim (Bool-cases (leb m.page_table_size (va / page_size))) [
      | inl out ↦ let h' = simp out at h in cc
      | inr within ↦ elim (Option-cases (get_elem? table (va / page_size))) [
        | inl e ↦ let h' = simp (within, e) at h in cc
        | inr (e, found) ↦ elim (Bool-cases e.valid) [
          | inl v ↦
              let h' = simp (within, found, v) at h in
              let (a, b, c, d, f) = use_entry-Success m m' va size pa w e _ h' in
              record {
                entry = e;
                within = within;
                found = found;
                valid = v;
                allowed = a;
                frame = b;
                place = c;
                fits = d;
                after = f;
              }
          | inr v ↦ let h' = simp (within, found, v) at h in cc
        ]
      ]
    ]

-- A read through a table that holds `e` for the page of the address.
through_entry :
    (m : Machine) (va size : ℕ) (table : List Entry) (e : Entry)
    → misaligned va size ≡ false
    → m.tlb ≡ none
    → leb m.page_table_size (va / page_size) ≡ false
    → get_elem? table (va / page_size) ≡ some e
    → e.valid ≡ true
    → (e.read_only && false) ≡ false
    → leb num_phys_pages e.physical_page ≡ false
    → leb (e.physical_page * page_size + va % page_size + size) memory_size ≡ true
    → translate va size false (record m { page_table = some table })
      ≡ done
          (address (e.physical_page * page_size + va % page_size))
          (record m { page_table = some (set table (va / page_size) (touched false e)) })
unfolding translate via_tables via_page_table use_entry
through_entry m va size table e a no_tlb within found valid open_ frame fits =
    simp (a, no_tlb, within, found, valid, open_, frame, fits)

-- A second translation of the address, to read, finds the entry that the first left.
pub again :
    (m m' : Machine) (va size pa : ℕ) (table : List Entry) (bytes : List ℕ)
    → m.tlb ≡ none
    → m.page_table ≡ some table
    → length table ≡ m.page_table_size
    → translate va size true m ≡ done (address pa) m'
    → (m'' : Machine) × (translate va size false (record m' { main_memory = bytes })
        ≡ done (address pa) m'')
      × (m''.main_memory ≡ bytes)
      × (m'.main_memory ≡ m.main_memory)
      × (leb (pa + size) memory_size ≡ true)
unfolding translate via_tables touched
again m m' va size pa table bytes no_tlb has len h = elim (Bool-cases (misaligned va size)) [
  | inl bad ↦ let h' = simp bad at h in cc
  | inr a ↦
      let s = via_page_table-Success m m' va size pa true table (simp (a, no_tlb, has) at h) in
      let e' : Entry = touched true s.entry in
      let table' : List Entry = set table (va / page_size) e' in
      let found' : get_elem? table' (va / page_size) ≡ some e' =
        get_elem?-set_self table (va / page_size) e' (ground (arith, s.within, len)) in
      let start : Machine = record m { main_memory = bytes } in
      let end_ : Machine = record start {
        page_table = some (set table' (va / page_size) (touched false e'));
      } in
      let fits : leb (s.entry.physical_page * page_size + va % page_size + size) memory_size
          ≡ true =
        ap (λ q. leb (q + size) memory_size) (sym s.place) ∙ s.fits in
      let after =
        through_entry start va size table' e' a no_tlb s.within found' s.valid (ground arith)
          s.frame fits in
      (
        end_,
        ap (λ (k : Machine). translate va size false (record k { main_memory = bytes })) s.after
            ∙ (after ∙ ap (λ q. done (address q) end_) (sym s.place)),
        refl,
        ap (λ (k : Machine). k.main_memory) s.after,
        s.fits,
      )
]
